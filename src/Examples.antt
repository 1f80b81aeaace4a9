-- ===== src/Examples.antt =====
-- Concrete inputs for the theorems of the other modules, and runs of the definitions on them.
mod Table
mod Codes
mod Stream
mod Tools
mod FriendCalls
mod FileCalls
mod OwnCalls
mod Keys
mod Bytes
mod Logs
mod Video
mod AvCalls
mod Threads
