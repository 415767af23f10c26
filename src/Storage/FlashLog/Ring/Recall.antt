-- ===== src/Storage/FlashLog/Ring/Recall.antt =====
-- What flash_log_append of src/storage/flash_manager.c has stored, flash_log_read gives back.
use nrf54l15_tag.Common.{
  ℕ, zero, suc, ◌+◌, ◌-◌, ◌<◌, ◌≡◌, Bool-cases, inl, inr, refl, ◌∙◌, ap, arith, length, length-drop,
  if_yes, not, take, drop, map, List, [], ◌∷◌, ◌++◌, Option, none, some, Status,
}
use nrf54l15_tag.Storage.FlashLog.{
  Flash, FlashLog, make_room, new_slot, slot_written, write_head, flash_log_append, flash_log_read,
}
use nrf54l15_tag.Storage.FlashLog.Append.{opened, make_room-keeps}
use nrf54l15_tag.Storage.FlashLog.Ring.{IsRing}
use nrf54l15_tag.Storage.FlashLog.Ring.Append.{lost_by}
use nrf54l15_tag.Storage.FlashLog.Ring.Write.{stored, lost_by-le, flash_log_append-IsRing}
use nrf54l15_tag.Storage.FlashLog.Ring.Read.{flash_log_read-IsRing}

take_exact : (n : ℕ) (xs ys : List ℕ) → length xs ≡ n → take n (xs ++ ys) ≡ xs
take_exact zero [] ys h = refl
take_exact zero (x ∷ xs) ys h = absurd (omega arith)
take_exact (suc n) [] ys h = absurd (omega arith)
take_exact (suc n) (x ∷ xs) ys h = ap (λ l. x ∷ l) (take_exact n xs ys (omega arith))

take_all : (n : ℕ) (xs : List ℕ) → length xs ≡ n → take n xs ≡ xs
take_all zero [] h = refl
take_all zero (x ∷ xs) h = absurd (omega arith)
take_all (suc n) [] h = absurd (omega arith)
take_all (suc n) (x ∷ xs) h = ap (λ l. x ∷ l) (take_all n xs (omega arith))

drop_exact : (n : ℕ) (xs ys : List (List ℕ)) → length xs ≡ n → drop n (xs ++ ys) ≡ ys
drop_exact zero [] ys h = refl
drop_exact zero (x ∷ xs) ys h = absurd (omega arith)
drop_exact (suc n) [] ys h = absurd (omega arith)
drop_exact (suc n) (x ∷ xs) ys h = drop_exact n xs ys (omega arith)

take_one : (max : ℕ) (x : List ℕ) → take (suc max) (x ∷ []) ≡ x ∷ []
take_one zero x = refl
take_one (suc max) x = refl

module _ (flash : Flash) where
  open flash use {Area}

  written-payload_size :
      (bytes : List ℕ) (m : FlashLog Area × Status)
      → (write_head flash bytes m).0.payload_size ≡ m.0.payload_size
  unfolding write_head slot_written
  written-payload_size bytes (l, some err) = refl
  written-payload_size bytes (l, none) =
      slotted (flash.write l.head_slot (new_slot flash bytes l) l.area)
    where
      slotted : (r : Area × Status) → (slot_written flash l r).0.payload_size ≡ l.payload_size
      slotted (a, none) = refl
      slotted (a, some err) = refl

  pub append-payload_size :
      (bytes : List ℕ) (l : FlashLog Area)
      → (flash_log_append flash bytes l).0.payload_size ≡ l.payload_size
  unfolding flash_log_append
  append-payload_size bytes l = elim (Bool-cases l.ready) [
    | inl on ↦
        let (head, seq, size, total) = make_room-keeps flash l in
        ap (λ (r : FlashLog Area × Status × Option ℕ). r.0.payload_size) (opened flash bytes l on)
        ∙ written-payload_size bytes (make_room flash l)
        ∙ size
    | inr off ↦
        ap (λ (r : FlashLog Area × Status × Option ℕ). r.0.payload_size)
          (if_yes (not l.ready) _ _ (ap not off))
  ]

  take-stored :
      (bytes : List ℕ) (l : FlashLog Area)
      → length bytes ≡ l.payload_size
      → take l.payload_size (stored flash bytes l) ≡ bytes
  unfolding new_slot
  take-stored bytes l h =
      let all = take_all l.payload_size bytes h in
      take_exact l.payload_size (take l.payload_size bytes) _ (ap length all ∙ h) ∙ all

  -- A record of the log's size that was appended to a ring with the result 0 is what a read from its
  -- sequence number on gives, and all that it gives.
  pub flash_log_append-read :
      (bytes : List ℕ) (l : FlashLog Area) (f room max : ℕ) (rs : List (List ℕ))
      → IsRing flash l f room rs
      → f + length rs < 4294967294
      → length bytes ≡ l.payload_size
      → (flash_log_append flash bytes l).1 ≡ none
      → flash_log_read flash l.next_seq (suc max) (flash_log_append flash bytes l).0
        ≡ some (bytes ∷ [])
  flash_log_append-read bytes l f room max rs v numbers size ok =
      let (seq, room', ring) = flash_log_append-IsRing flash bytes l f room rs v numbers ok in
      let after = (flash_log_append flash bytes l).0 in
      let lost = lost_by flash l in
      let kept = drop lost rs in
      let newest = stored flash bytes l in
      let index : l.next_seq - (f + lost + 1) ≡ length kept =
        omega (arith, v.seq, length-drop lost rs, lost_by-le flash l f room rs v) in
      flash_log_read-IsRing flash after (f + lost) room' (kept ++ newest ∷ []) l.next_seq (suc max)
        ring
      ∙ ap
          (λ (j : ℕ).
            some (map (take after.payload_size) (take (suc max) (drop j (kept ++ newest ∷ [])))))
          index
      ∙ ap (λ xs. some (map (take after.payload_size) (take (suc max) xs)))
          (drop_exact (length kept) kept (newest ∷ []) refl)
      ∙ ap (λ xs. some (map (take after.payload_size) xs)) (take_one max newest)
      ∙ ap (λ (j : ℕ). some (take j newest ∷ [])) (append-payload_size bytes l)
      ∙ ap (λ x. some (x ∷ [])) (take-stored bytes l size)
