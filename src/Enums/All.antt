-- ===== src/Enums/All.antt =====
-- Every enum of the subsystems.
use jvm_toxcore_c.Enums.{IsEncoding}
use jvm_toxcore_c.Enums.Status
use jvm_toxcore_c.Enums.Setup
use jvm_toxcore_c.Enums.Calls

-- For each of the eight enums, ordinals and enumerators are inverse to one another: an enumerator
-- that is turned into an ordinal is read back as itself, an ordinal that is read is written again as
-- itself, the ordinals are the numbers below the enum's size, and any other number from Java aborts
-- the process.
pub enums-IsEncoding :
    IsEncoding Status.ordinal_connection Status.value_of_connection 3
    × IsEncoding Status.ordinal_user_status Status.value_of_user_status 3
    × IsEncoding Status.ordinal_message_type Status.value_of_message_type 2
    × IsEncoding Status.ordinal_file_control Status.value_of_file_control 3
    × IsEncoding Setup.ordinal_proxy_type Setup.value_of_proxy_type 3
    × IsEncoding Setup.ordinal_savedata_type Setup.value_of_savedata_type 3
    × IsEncoding Calls.ordinal_call_control Calls.value_of_call_control 7
    × IsEncoding Calls.ordinal_friend_call_state Calls.value_of_friend_call_state 6
enums-IsEncoding = (
  Status.connection-IsEncoding, Status.user_status-IsEncoding, Status.message_type-IsEncoding,
  Status.file_control-IsEncoding, Setup.proxy_type-IsEncoding, Setup.savedata_type-IsEncoding,
  Calls.call_control-IsEncoding, Calls.friend_call_state-IsEncoding,
)
