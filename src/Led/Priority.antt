-- ===== src/Led/Priority.antt =====
-- Which indication src/ui/led_manager.c shows.
use nrf54l15_tag.Common.{ℕ, ◌≤◌, ◌≡◌, ◌≢◌, ◌⊎◌, true, arith}
use nrf54l15_tag.Common.Mask
use nrf54l15_tag.Led.{LedState, idle, led_index, top_state}

top_state_mono :
    (f : ℕ) (s : LedState)
    → Mask.test (led_index s) f ≡ true
    → (s ≡ idle) ⊎ (led_index s ≤ led_index (top_state f))
unfolding top_state
top_state_mono f s h = ground arith

top_state-active : (f : ℕ) → (top_state f ≡ idle) ⊎ (Mask.test (led_index (top_state f)) f ≡ true)
unfolding top_state
top_state-active f = ground arith

-- While an indication is on, the state that is shown is on too, and is the indication or one that
-- ranks above it.
pub top_state_highest :
    (f : ℕ) (s : LedState)
    → s ≢ idle
    → Mask.test (led_index s) f ≡ true
    → (Mask.test (led_index (top_state f)) f ≡ true) × (led_index s ≤ led_index (top_state f))
top_state_highest f s n h = ground (arith, top_state_mono f s h, top_state-active f)
