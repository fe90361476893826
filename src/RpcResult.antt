-- ===== src/RpcResult.antt =====
-- lib/lib-jsonrpc-tcp ADCommon.hpp RPC_SRV_RESULT with its string table, and the conversions of
-- ADCmnStringProcessor.cpp between codes and strings.
pub mod Strings
mod Tests
use Prim.Native.String.{String}
use text.Mathlib.Text.{◌==◌ as str_eq}
use jsonrpc_tcp_srv.Prelude.{
  ℕ, zero, suc, ◌+◌, Bool, List, [], ◌∷◌, Option, none, some, ltb, leb, ◌==◌, if◌then◌else◌,
  get_elem?,
}

pub data RpcSrvResult : Type 0 where
  success fail in_prog busy not_started timeout arg_error mem_error bus_error : RpcSrvResult
  action_not_allowed dev_not_accessible file_not_found feature_not_available : RpcSrvResult
  feature_unsupported task_id_not_found value_out_of_range file_open_err : RpcSrvResult
  file_read_err file_write_err file_same file_different : RpcSrvResult
  host_not_reachable_err resend cs_exposure_err cs_i2c_err item_not_found : RpcSrvResult
  file_error devinfo_error file_empty item_duplicate_found unknown_command : RpcSrvResult
  devnode_accerr devnode_openerr offline_node unknown none_result : RpcSrvResult

-- The enumerators in the order of their values.
abbrev all_results : List RpcSrvResult
all_results =
    success ∷ fail ∷ in_prog ∷ busy ∷ not_started ∷ timeout ∷ arg_error ∷ mem_error ∷ bus_error
    ∷ action_not_allowed ∷ dev_not_accessible ∷ file_not_found ∷ feature_not_available
    ∷ feature_unsupported ∷ task_id_not_found ∷ value_out_of_range ∷ file_open_err ∷ file_read_err
    ∷ file_write_err ∷ file_same ∷ file_different ∷ host_not_reachable_err ∷ resend
    ∷ cs_exposure_err ∷ cs_i2c_err ∷ item_not_found ∷ file_error ∷ devinfo_error ∷ file_empty
    ∷ item_duplicate_found ∷ unknown_command ∷ devnode_accerr ∷ devnode_openerr ∷ offline_node
    ∷ unknown ∷ none_result ∷ []

unfoldable pub code_of : RpcSrvResult → ℕ
code_of success = 0
code_of fail = 1
code_of in_prog = 2
code_of busy = 3
code_of not_started = 4
code_of timeout = 5
code_of arg_error = 6
code_of mem_error = 7
code_of bus_error = 8
code_of action_not_allowed = 9
code_of dev_not_accessible = 10
code_of file_not_found = 11
code_of feature_not_available = 12
code_of feature_unsupported = 13
code_of task_id_not_found = 14
code_of value_out_of_range = 15
code_of file_open_err = 16
code_of file_read_err = 17
code_of file_write_err = 18
code_of file_same = 19
code_of file_different = 20
code_of host_not_reachable_err = 21
code_of resend = 22
code_of cs_exposure_err = 23
code_of cs_i2c_err = 24
code_of item_not_found = 25
code_of file_error = 26
code_of devinfo_error = 27
code_of file_empty = 28
code_of item_duplicate_found = 29
code_of unknown_command = 30
code_of devnode_accerr = 31
code_of devnode_openerr = 32
code_of offline_node = 33
code_of unknown = 34
code_of none_result = 35

-- The test `== RPC_SRV_RESULT_IN_PROG`.
abbrev pub is_in_prog : RpcSrvResult → Bool
is_in_prog r = code_of r == code_of in_prog

abbrev rpc_server_result_table : List String
rpc_server_result_table =
    "Success" ∷ "Fail" ∷ "InProgress" ∷ "Busy" ∷ "NotStarted" ∷ "Timeout" ∷ "ArgError" ∷ "MemError"
    ∷ "BusError" ∷ "ActionBlocked" ∷ "DeviceError" ∷ "FileNotFound" ∷ "FeatureNotAvailable"
    ∷ "UnsupportedFeature" ∷ "taskIDNotFound" ∷ "valueOutOfRange" ∷ "FileOpenErr" ∷ "FileReadErr"
    ∷ "FileWriteErr" ∷ "FileSame" ∷ "FileNotSame" ∷ "HostUnreachable" ∷ "resend" ∷ "csExposureError"
    ∷ "csI2CErr" ∷ "ItemNotFound" ∷ "FileError" ∷ "DevInfoErr" ∷ "FileEmpty" ∷ "DuplicateItem"
    ∷ "UnknownCmd" ∷ "DevNodeAccErr" ∷ "DevNodeOpenErr" ∷ "OfflineNode" ∷ "Unknown" ∷ "none" ∷ ""
    ∷ []

-- `table[index]`; the index is in range.
string_at : List String → ℕ → String
string_at [] i = ""
string_at (s ∷ ss) zero = s
string_at (s ∷ ss) (suc i) = string_at ss i

unfoldable pub convert_server_result_to_string : RpcSrvResult → String
unfolding string_at code_of
convert_server_result_to_string result =
    if leb (code_of none_result) (code_of result)
    then string_at rpc_server_result_table (code_of unknown)
    else string_at rpc_server_result_table (code_of result)

-- The cast of an int to the enumeration, within its range.
result_at : List RpcSrvResult → ℕ → RpcSrvResult
result_at [] i = unknown
result_at (r ∷ rs) zero = r
result_at (r ∷ rs) (suc i) = result_at rs i

-- The loop of `string_to_enum`, at `index`, over what the table holds from there.
enum_from : String → ℕ → ℕ → List String → ℕ
enum_from string max_enum_value index [] = max_enum_value
enum_from string max_enum_value index (s ∷ ss) =
    let rest = enum_from string max_enum_value (index + 1) ss in
    if ltb index max_enum_value then (if str_eq s string then index else rest) else max_enum_value

unfoldable pub string_to_enum : List String → String → ℕ → ℕ
unfolding enum_from
string_to_enum string_table string max_enum_value = enum_from string max_enum_value 0 string_table

result_from : String → ℕ → List String → RpcSrvResult
unfolding code_of result_at
result_from result_string i [] = unknown
result_from result_string i (s ∷ ss) =
    let rest = result_from result_string (i + 1) ss in
    if ltb i (code_of none_result)
    then (if str_eq result_string s then result_at all_results i else rest)
    else unknown

unfoldable pub convert_string_to_server_result : String → RpcSrvResult
unfolding result_from
convert_string_to_server_result result_string = result_from result_string 0 rpc_server_result_table
