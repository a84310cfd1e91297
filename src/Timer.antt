-- ===== src/Timer.antt =====
-- common/message_queue.cpp and common/alarm.cpp: the timers of the client.
pub mod Queue
pub mod Alarm
