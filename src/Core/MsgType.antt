-- ===== src/Core/MsgType.antt =====
-- crates/ohmcp-core/src/frame.rs: the message types and their codes.
use ohmcp.Base.Bytes.{hex_digit, Text, ascii, IsByte}
use ohmcp.Base.{
  ℕ, ◌/◌, ◌%◌, ◌≡◌, refl, Result, ok, err, [], ◌∷◌, ◌++◌, arith, if◌then◌else◌, ltb, ◌==◌,
}
use ohmcp.Core.Error.{CoreError, codec}

pub data MsgType : Type 0 where
  initialize : MsgType
  initialize_result : MsgType
  list_tools : MsgType
  list_tools_result : MsgType
  call_tool : MsgType
  call_tool_result : MsgType
  ping : MsgType
  pong : MsgType
  auth : MsgType
  auth_result : MsgType
  shm_setup : MsgType
  shm_setup_result : MsgType
  list_resources : MsgType
  list_resources_result : MsgType
  read_resource : MsgType
  read_resource_result : MsgType
  list_prompts : MsgType
  list_prompts_result : MsgType
  get_prompt : MsgType
  get_prompt_result : MsgType
  cancel : MsgType
  progress : MsgType
  subscribe_resource : MsgType
  subscribe_resource_result : MsgType
  unsubscribe_resource : MsgType
  resource_updated : MsgType
  resource_list_changed : MsgType
  error : MsgType

pub MsgType-discrete : Discrete MsgType
MsgType-discrete = hlevel

-- `msg_type as u8`
unfoldable pub to_u8 : MsgType → ℕ
to_u8 initialize = 0x01
to_u8 initialize_result = 0x02
to_u8 list_tools = 0x03
to_u8 list_tools_result = 0x04
to_u8 call_tool = 0x05
to_u8 call_tool_result = 0x06
to_u8 ping = 0x07
to_u8 pong = 0x08
to_u8 auth = 0x09
to_u8 auth_result = 0x0A
to_u8 shm_setup = 0x0B
to_u8 shm_setup_result = 0x0C
to_u8 list_resources = 0x0D
to_u8 list_resources_result = 0x0E
to_u8 read_resource = 0x0F
to_u8 read_resource_result = 0x10
to_u8 list_prompts = 0x11
to_u8 list_prompts_result = 0x12
to_u8 get_prompt = 0x13
to_u8 get_prompt_result = 0x14
to_u8 cancel = 0x15
to_u8 progress = 0x16
to_u8 subscribe_resource = 0x17
to_u8 subscribe_resource_result = 0x18
to_u8 unsubscribe_resource = 0x19
to_u8 resource_updated = 0x1A
to_u8 resource_list_changed = 0x1B
to_u8 error = 0x7F

-- `format!("{v:#x}")` of a byte.
unfoldable pub hex_u8 : ℕ → Text
hex_u8 v =
    ascii "0x"
    ++ (if ltb v 16 then hex_digit v ∷ [] else hex_digit (v / 16) ∷ hex_digit (v % 16) ∷ [])

unfoldable pub from_u8 : ℕ → Result CoreError MsgType
unfolding hex_u8
from_u8 v =
    if v == 0x01
    then ok initialize
    else if v == 0x02
    then ok initialize_result
    else if v == 0x03
    then ok list_tools
    else if v == 0x04
    then ok list_tools_result
    else if v == 0x05
    then ok call_tool
    else if v == 0x06
    then ok call_tool_result
    else if v == 0x07
    then ok ping
    else if v == 0x08
    then ok pong
    else if v == 0x09
    then ok auth
    else if v == 0x0A
    then ok auth_result
    else if v == 0x0B
    then ok shm_setup
    else if v == 0x0C
    then ok shm_setup_result
    else if v == 0x0D
    then ok list_resources
    else if v == 0x0E
    then ok list_resources_result
    else if v == 0x0F
    then ok read_resource
    else if v == 0x10
    then ok read_resource_result
    else if v == 0x11
    then ok list_prompts
    else if v == 0x12
    then ok list_prompts_result
    else if v == 0x13
    then ok get_prompt
    else if v == 0x14
    then ok get_prompt_result
    else if v == 0x15
    then ok cancel
    else if v == 0x16
    then ok progress
    else if v == 0x17
    then ok subscribe_resource
    else if v == 0x18
    then ok subscribe_resource_result
    else if v == 0x19
    then ok unsubscribe_resource
    else if v == 0x1A
    then ok resource_updated
    else if v == 0x1B
    then ok resource_list_changed
    else if v == 0x7F
    then ok error
    else err (codec (ascii "unknown msg type " ++ hex_u8 v))

-- A message type survives the way to its code and back.
pub from_u8-to_u8 : (t : MsgType) → from_u8 (to_u8 t) ≡ ok t
unfolding from_u8 to_u8
from_u8-to_u8 initialize = refl
from_u8-to_u8 initialize_result = refl
from_u8-to_u8 list_tools = refl
from_u8-to_u8 list_tools_result = refl
from_u8-to_u8 call_tool = refl
from_u8-to_u8 call_tool_result = refl
from_u8-to_u8 ping = refl
from_u8-to_u8 pong = refl
from_u8-to_u8 auth = refl
from_u8-to_u8 auth_result = refl
from_u8-to_u8 shm_setup = refl
from_u8-to_u8 shm_setup_result = refl
from_u8-to_u8 list_resources = refl
from_u8-to_u8 list_resources_result = refl
from_u8-to_u8 read_resource = refl
from_u8-to_u8 read_resource_result = refl
from_u8-to_u8 list_prompts = refl
from_u8-to_u8 list_prompts_result = refl
from_u8-to_u8 get_prompt = refl
from_u8-to_u8 get_prompt_result = refl
from_u8-to_u8 cancel = refl
from_u8-to_u8 progress = refl
from_u8-to_u8 subscribe_resource = refl
from_u8-to_u8 subscribe_resource_result = refl
from_u8-to_u8 unsubscribe_resource = refl
from_u8-to_u8 resource_updated = refl
from_u8-to_u8 resource_list_changed = refl
from_u8-to_u8 error = refl

pub to_u8-IsByte : (t : MsgType) → IsByte (to_u8 t)
unfolding to_u8
to_u8-IsByte initialize = omega arith
to_u8-IsByte initialize_result = omega arith
to_u8-IsByte list_tools = omega arith
to_u8-IsByte list_tools_result = omega arith
to_u8-IsByte call_tool = omega arith
to_u8-IsByte call_tool_result = omega arith
to_u8-IsByte ping = omega arith
to_u8-IsByte pong = omega arith
to_u8-IsByte auth = omega arith
to_u8-IsByte auth_result = omega arith
to_u8-IsByte shm_setup = omega arith
to_u8-IsByte shm_setup_result = omega arith
to_u8-IsByte list_resources = omega arith
to_u8-IsByte list_resources_result = omega arith
to_u8-IsByte read_resource = omega arith
to_u8-IsByte read_resource_result = omega arith
to_u8-IsByte list_prompts = omega arith
to_u8-IsByte list_prompts_result = omega arith
to_u8-IsByte get_prompt = omega arith
to_u8-IsByte get_prompt_result = omega arith
to_u8-IsByte cancel = omega arith
to_u8-IsByte progress = omega arith
to_u8-IsByte subscribe_resource = omega arith
to_u8-IsByte subscribe_resource_result = omega arith
to_u8-IsByte unsubscribe_resource = omega arith
to_u8-IsByte resource_updated = omega arith
to_u8-IsByte resource_list_changed = omega arith
to_u8-IsByte error = omega arith

-- The code that was read is the code of the type that was read from it.
pub to_u8-from_u8 : (v : ℕ) (t : MsgType) → from_u8 v ≡ ok t → to_u8 t ≡ v
unfolding from_u8 to_u8
to_u8-from_u8 v t h = ground arith
