-- ===== src/Tests.antt =====
-- The theorems at concrete inputs, and runs of the code.
mod PacketTests
mod MessageTests
mod TimerTests
mod ClientTests
mod IoTests
mod MachineTests
mod WakeupTests
mod TlsTests
mod ConnectTests
mod PollTests
mod ZlibTests
