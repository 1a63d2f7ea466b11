-- ===== src/Event.antt =====
-- event/event-mask.c and event/async-event.c: asynchronous events of threads and processes.
pub mod Mask
pub mod Queue
mod Send
mod Exit
mod Wakeable
mod PassOn
mod ThreadEnd
mod Deliver
mod Taken
mod Deliverable
mod FirstBit
mod Update
mod Dequeue
mod Post
mod Tests
