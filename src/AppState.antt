-- ===== src/AppState.antt =====
-- src/app/app_state.c: the centre of the firmware. `Locked` is what it does under its mutex with one
-- sample, `Service` the functions that it offers; the other modules prove their properties.
pub mod Locked
pub mod Service
pub mod Queue
pub mod Counters
pub mod Fanout
pub mod Logging
