-- ===== src/Frame.antt =====
-- bnl/http3/include/bnl/http3/codec/frame.hpp: the frames of HTTP/3 and their types.
pub mod Write
pub mod Read
pub mod Sizes
mod Parts
pub mod Safety
mod Reads
mod Payload
pub mod Whole
pub mod Peek
mod Examples
mod SettingsLoop
pub mod RoundTrip
use bnl.Prelude.{ℕ, ◌≡◌, refl, Option, none, some, ◌==◌, if◌then◌else◌}
use bnl.Settings.{Settings}

-- `frame::type`.
pub data FrameType : Type 0 where
  data_type headers priority cancel_push settings push_promise goaway max_push_id duplicate_push :
      FrameType

-- `enumeration::value(type)`.
abbrev pub type_value : FrameType → ℕ
type_value FrameType.data_type = 0x0
type_value FrameType.headers = 0x1
type_value FrameType.priority = 0x2
type_value FrameType.cancel_push = 0x3
type_value FrameType.settings = 0x4
type_value FrameType.push_promise = 0x5
type_value FrameType.goaway = 0x7
type_value FrameType.max_push_id = 0xd
type_value FrameType.duplicate_push = 0xe

-- `static_cast<frame::type>(type)` under the `switch` of `peek` and `decode_single`; `none` is its
-- `default` case.
unfoldable pub to_type : ℕ → Option FrameType
to_type t =
    if t == 0x0
    then some FrameType.data_type
    else if t == 0x1
    then some FrameType.headers
    else if t == 0x2
    then some FrameType.priority
    else if t == 0x3
    then some FrameType.cancel_push
    else if t == 0x4
    then some FrameType.settings
    else if t == 0x5
    then some FrameType.push_promise
    else if t == 0x7
    then some FrameType.goaway
    else if t == 0xd
    then some FrameType.max_push_id
    else if t == 0xe
    then some FrameType.duplicate_push
    else none

-- `frame::payload::priority::type`. The enumerators `current` and `root` are both 0x3; `current`
-- stands for both.
pub data PriorityType : Type 0 where
  request push placeholder current : PriorityType

abbrev pub priority_value : PriorityType → ℕ
priority_value request = 0x0
priority_value push = 0x1
priority_value placeholder = 0x2
priority_value current = 0x3

-- `static_cast<frame::payload::priority::type>` of a two-bit number.
abbrev pub to_priority : ℕ → PriorityType
to_priority n =
    if n == 0x0
    then request
    else if n == 0x1
    then push
    else if n == 0x2
    then placeholder
    else current

pub record Priority : Type 0 where
  pub prioritized_element_type : PriorityType
  pub element_dependency_type : PriorityType
  pub prioritized_element_id : ℕ
  pub element_dependency_id : ℕ
  pub weight : ℕ

-- `frame`: the type and the member of the union that it selects.
pub data Frame : Type 0 where
  data_frame : (size : ℕ) → Frame
  headers : (size : ℕ) → Frame
  priority : Priority → Frame
  cancel_push : (push_id : ℕ) → Frame
  settings : Settings → Frame
  push_promise : (push_id size : ℕ) → Frame
  goaway : (stream_id : ℕ) → Frame
  max_push_id : (push_id : ℕ) → Frame
  duplicate_push : (push_id : ℕ) → Frame

-- `operator type()`.
abbrev pub frame_type : Frame → FrameType
frame_type (data_frame size) = FrameType.data_type
frame_type (Frame.headers size) = FrameType.headers
frame_type (Frame.priority p) = FrameType.priority
frame_type (Frame.cancel_push id) = FrameType.cancel_push
frame_type (Frame.settings s) = FrameType.settings
frame_type (Frame.push_promise id size) = FrameType.push_promise
frame_type (Frame.goaway id) = FrameType.goaway
frame_type (Frame.max_push_id id) = FrameType.max_push_id
frame_type (Frame.duplicate_push id) = FrameType.duplicate_push

-- The first eight bytes of the union, read as `frame.data.size` or `frame.headers.size`: the first
-- member of every payload but that of PRIORITY is a `uint64_t`; of that one the read is undefined.
abbrev pub first_member : Frame → Option ℕ
first_member (data_frame size) = some size
first_member (Frame.headers size) = some size
first_member (Frame.priority p) = none
first_member (Frame.cancel_push id) = some id
first_member (Frame.settings s) = some s.max_header_list_size
first_member (Frame.push_promise id size) = some id
first_member (Frame.goaway id) = some id
first_member (Frame.max_push_id id) = some id
first_member (Frame.duplicate_push id) = some id
