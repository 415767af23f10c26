-- ===== src/Storage/FlashLog/Ring/Write.antt =====
-- flash_log_append of src/storage/flash_manager.c: a bounded list that loses its oldest records.
use native.Mathlib.Nat.{mod-add-mod, mod-lt}
use nrf54l15_tag.Common.{
  drop, length-drop, ℕ, suc, ◌+◌, ◌-◌, ◌%◌, ◌≤◌, ◌<◌, ◌≡◌, ◌≢◌, ◌⊎◌, Bool-cases, inl, inr, ◌==◌,
  refl, sym, ◌∙◌, ap, arith, length, length-append, List, [], ◌∷◌, ◌++◌, none, some, Status, add32,
  if◌then◌else◌,
}
use nrf54l15_tag.Storage.FlashLog.{
  Flash, FlashLog, valid_at, make_room, new_slot, slot_written, write_head, flash_log_append,
}
use nrf54l15_tag.Storage.FlashLog.Append.{new_slot-valid, opened, make_room-keeps}
use nrf54l15_tag.Storage.FlashLog.Window.{turn_ne, Holds-frame, Holds-append, slot_of}
use nrf54l15_tag.Storage.FlashLog.Ring.{IsRing}
use nrf54l15_tag.Storage.FlashLog.Ring.Append.{lost_by, make_room-IsRing}

module _ (flash : Flash) where
  open flash use {Area, read, write, read-write, read-write_ne}

  -- The bytes that a record takes in its slot.
  abbrev pub stored : List ℕ → FlashLog Area → List ℕ
  stored bytes l = (new_slot flash bytes l).payload

  new_slot_shape :
      (bytes : List ℕ) (l : FlashLog Area)
      → new_slot flash bytes l ≡ slot_of flash l.next_seq (stored bytes l)
  unfolding new_slot
  new_slot_shape bytes l = refl

  -- What a write that succeeds does to the fields.
  abbrev moved_on : Area → FlashLog Area → FlashLog Area
  moved_on a l = record l {
    area = a;
    tail_slot = if l.used_slots == 0 then l.head_slot else l.tail_slot;
    next_seq = add32 l.next_seq 1;
    used_slots = add32 l.used_slots 1;
    head_slot = add32 l.head_slot 1 % l.total_slots;
  }

  written_state :
      (l : FlashLog Area) (r : Area × Status)
      → (slot_written flash l r).1 ≡ none
      → (r.1 ≡ none)
        × ((slot_written flash l r).0 ≡ moved_on r.0 l)
        × ((slot_written flash l r).2 ≡ some l.next_seq)
  unfolding slot_written
  written_state l (a, none) ok = (refl, refl, refl)
  written_state l (a, some err) ok = cc

  module _ (bytes : List ℕ) (l : FlashLog Area) (f room : ℕ) (rs : List (List ℕ))
      (v : IsRing flash l f room rs) (free : 0 < room) (numbers : f + length rs < 4294967294)
      (done : (write l.head_slot (new_slot flash bytes l) l.area).1 ≡ none) where
    abbrev b : Area
    b = (write l.head_slot (new_slot flash bytes l) l.area).0

    read_new : read l.head_slot b ≡ some (new_slot flash bytes l)
    read_new =
        read-write l.head_slot (new_slot flash bytes l) l.area
          (rw v.head (v.blank (f + length rs) (omega arith) (omega (arith, free)))) done

    read_old :
        (k d : ℕ)
        → (k + d ≡ f + length rs) ⊎ (f + length rs + d ≡ k)
        → 0 < d
        → d < l.total_slots
        → read (k % l.total_slots) b ≡ read (k % l.total_slots) l.area
    read_old k d at low high =
        read-write_ne l.head_slot (k % l.total_slots) (new_slot flash bytes l) l.area (λ e. ne at e)
          done
      where
        ne : (k + d ≡ f + length rs) ⊎ (f + length rs + d ≡ k) → l.head_slot ≢ k % l.total_slots
        ne (inl before) e =
            turn_ne l.total_slots k d (omega arith) low high (rw before (sym v.head ∙ e))
        ne (inr behind) e =
            turn_ne l.total_slots (f + length rs) d (omega arith) low high
              (rw behind (sym e ∙ v.head))

    valid_old :
        (k d : ℕ)
        → (k + d ≡ f + length rs) ⊎ (f + length rs + d ≡ k)
        → 0 < d
        → d < l.total_slots
        → valid_at flash (k % l.total_slots) b ≡ valid_at flash (k % l.total_slots) l.area
    unfolding valid_at
    valid_old k d at low high = rw (read_old k d at low high) refl

    valid_new :
        valid_at flash ((f + length rs) % l.total_slots) b
        ≡ some (slot_of flash (suc (f + length rs)) (stored bytes l))
    unfolding valid_at
    valid_new =
        let e : l.next_seq ≡ suc (f + length rs) = omega (arith, v.seq) in
        rw (sym v.head, read_new, new_slot-valid flash bytes l)
          (ap some (new_slot_shape bytes l ∙ ap (λ q. slot_of flash q (stored bytes l)) e))

    one_more : IsRing flash (moved_on b l) f (room - 1) (rs ++ stored bytes l ∷ [])
    unfolding add32
    one_more =
        let n = length-append {0} rs (stored bytes l ∷ []) in
        let space = v.space in
        record {
          ready = v.ready;
          sector_some = v.sector_some;
          sector_fits = v.sector_fits;
          sector_bytes = v.sector_bytes;
          whole = v.whole;
          word = v.word;
          used = omega (arith, n, v.used, v.word, free);
          seq = omega (arith, n, v.seq, numbers);
          head =
              let t = l.total_slots in
              let h = mod-lt (f + length rs) {m = t} (omega (arith, v.space, free)) in
              let small : (l.head_slot + 1) % 4294967296 ≡ l.head_slot + 1 =
                omega (arith, h, v.head, v.word) in
              let next : f + length (rs ++ stored bytes l ∷ []) ≡ f + length rs + 1 =
                omega (arith, n) in
              rw (next, small, v.head) (mod-add-mod (f + length rs) t 1);
          tail = elim (Bool-cases (l.used_slots == 0)) [
            | inl empty ↦
                let e : f + length rs ≡ f = ground (arith, v.used) in rw (empty, v.head, e) refl
            | inr kept ↦ rw kept v.tail
          ];
          holds =
              Holds-append flash l.total_slots b f (f + length rs) rs (stored bytes l) refl
                (Holds-frame flash l.total_slots l.area b f rs
                  (λ k low high.
                    valid_old k (f + length rs - k) (inl (omega arith)) (omega arith)
                      (omega (arith, free)))
                  v.holds)
                valid_new;
          outside = λ k low high.
              valid_old k (k - (f + length rs)) (inr (omega (arith, n))) (omega (arith, n))
                (omega (arith, n))
              ∙ v.outside k (omega (arith, n)) high;
          blank = λ k low high.
              read_old k (k - (f + length rs)) (inr (omega (arith, n))) (omega (arith, n))
                (omega (arith, n, free))
              ∙ v.blank k (omega (arith, n)) (omega (arith, n));
          space = omega (arith, n, free);
          aligned =
              let e : f + length (rs ++ stored bytes l ∷ []) + (room - 1) ≡ f + length rs + room =
                omega (arith, n, free) in
              rw e v.aligned;
        }

  write_head-IsRing :
      (bytes : List ℕ) (m : FlashLog Area × Status) (f room : ℕ) (rs : List (List ℕ))
      → IsRing flash m.0 f room rs
      → 0 < room
      → f + length rs < 4294967294
      → (write_head flash bytes m).1 ≡ none
      → IsRing flash (write_head flash bytes m).0 f (room - 1) (rs ++ stored bytes m.0 ∷ [])
        × ((write_head flash bytes m).2 ≡ some (f + length rs + 1))
  unfolding write_head
  write_head-IsRing bytes (l, some err) f room rs v free numbers ok = cc
  write_head-IsRing bytes (l, none) f room rs v free numbers ok =
      let (done, state, seq) =
        written_state l (write l.head_slot (new_slot flash bytes l) l.area) ok in
      (rw state (one_more bytes l f room rs v free numbers done), seq ∙ ap some v.seq)

  made :
      (bytes : List ℕ) (m : FlashLog Area × Status)
      → (write_head flash bytes m).1 ≡ none
      → m.1 ≡ none
  unfolding write_head
  made bytes (l, some err) h = cc
  made bytes (l, none) h = refl

  pub lost_by-le :
      (l : FlashLog Area) (f room : ℕ) (rs : List (List ℕ))
      → IsRing flash l f room rs
      → lost_by flash l ≤ length rs
  lost_by-le l f room rs v = ground (arith, v.used, v.sector_fits)

  stored_after :
      (bytes : List ℕ) (l : FlashLog Area) → stored bytes (make_room flash l).0 ≡ stored bytes l
  unfolding new_slot
  stored_after bytes l = let (head, seq, size, total) = make_room-keeps flash l in rw size refl

  -- An append to a ring that returns 0 appends the record, padded to a slot, to the list of records,
  -- from which the oldest are first dropped if the head enters their sector; it returns the record's
  -- position, counted from 1, as its sequence number; and the log is a ring again. The sequence
  -- numbers must not be exhausted.
  pub flash_log_append-IsRing :
      (bytes : List ℕ) (l : FlashLog Area) (f room : ℕ) (rs : List (List ℕ))
      → IsRing flash l f room rs
      → f + length rs < 4294967294
      → (flash_log_append flash bytes l).1 ≡ none
      → ((flash_log_append flash bytes l).2 ≡ some (f + length rs + 1))
        × (room' : ℕ) × IsRing flash
            (flash_log_append flash bytes l).0
            (f + lost_by flash l)
            room'
            (drop (lost_by flash l) rs ++ stored bytes l ∷ [])
  flash_log_append-IsRing bytes l f room rs v numbers ok =
      let e = opened flash bytes l v.ready in
      let done : (write_head flash bytes (make_room flash l)).1 ≡ none = rw (sym e) ok in
      let (room', free, ring) =
        make_room-IsRing flash l f room rs v (made bytes (make_room flash l) done) in
      let count : f + lost_by flash l + length (drop (lost_by flash l) rs) ≡ f + length rs =
        omega (arith, length-drop (lost_by flash l) rs, lost_by-le l f room rs v) in
      let (after, seq) =
        write_head-IsRing bytes (make_room flash l) (f + lost_by flash l) room'
          (drop (lost_by flash l) rs) ring free (omega (arith, count)) done in
      rw (e, sym (stored_after bytes l))
        (seq ∙ ap (λ (x : ℕ). some (x + 1)) count, room' - 1, after)
