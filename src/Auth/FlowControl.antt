-- ===== src/Auth/FlowControl.antt =====
-- server/webbou/auth.go, `FlowControlManager`: send windows of a connection and of its streams.
pub mod Windows
use web_bou.Prelude.{
  nat_eq, ℕ, ◌+◌, ◌-◌, ◌*◌, Bool, true, false, Option, none, some, List, [], ◌∷◌, leb, eqb,
  if◌then◌else◌,
}
use web_bou.Prelude.Words.{sub64}
use web_bou.Prelude.Maps.{Map, get, put}

pub record FlowControlManager : Type 0 where
  pub max_data : ℕ  -- uint64
  pub max_stream_data : ℕ  -- uint64
  pub avail_data : ℕ  -- uint64
  pub avail_stream_data : Map ℕ ℕ  -- uint32 to uint64

abbrev default_window : ℕ
default_window = 16 * 1024 * 1024

unfoldable new_flow_control_manager : FlowControlManager
new_flow_control_manager = record {
  max_data = default_window;
  max_stream_data = default_window;
  avail_data = default_window;
  avail_stream_data = [];
}

unfoldable init_connection : FlowControlManager → ℕ → FlowControlManager
init_connection fc max_data = record fc { max_data = max_data; avail_data = max_data }

unfoldable init_stream : FlowControlManager → ℕ → ℕ → FlowControlManager
init_stream fc stream_id max_data = record fc {
  avail_stream_data = put stream_id max_data fc.avail_stream_data;
}

-- `fc.availData -= amount` runs only where it does not wrap.
unfoldable consume_data : FlowControlManager → ℕ → FlowControlManager × Bool
consume_data fc amount =
    if leb amount fc.avail_data
    then (record fc { avail_data = fc.avail_data - amount }, true)
    else (fc, false)

consume_window : FlowControlManager → ℕ → ℕ → Option ℕ → FlowControlManager × Bool
consume_window fc stream_id amount none = (
  record fc {
    avail_stream_data = put stream_id (sub64 fc.max_stream_data amount) fc.avail_stream_data;
  },
  leb amount fc.max_stream_data,
)
consume_window fc stream_id amount (some avail) =
    if leb amount avail
    then (
      record fc { avail_stream_data = put stream_id (avail - amount) fc.avail_stream_data },
      true,
    )
    else (fc, false)

-- The first use of a stream subtracts before it compares, so there the subtraction may wrap.
unfoldable pub consume_stream_data : FlowControlManager → ℕ → ℕ → FlowControlManager × Bool
unfolding consume_window
consume_stream_data fc stream_id amount =
    consume_window fc stream_id amount (get stream_id fc.avail_stream_data)

unfoldable update_max_data : FlowControlManager → ℕ → FlowControlManager
update_max_data fc max_data = record fc { max_data = max_data; avail_data = max_data }

unfoldable update_max_stream_data : FlowControlManager → ℕ → ℕ → FlowControlManager
update_max_stream_data fc stream_id max_data = record fc {
  avail_stream_data = put stream_id max_data fc.avail_stream_data;
}

unfoldable is_connection_blocked : FlowControlManager → Bool
is_connection_blocked fc = eqb fc.avail_data 0

unfoldable is_stream_blocked : FlowControlManager → ℕ → Bool
is_stream_blocked fc stream_id = elim (get stream_id fc.avail_stream_data) [
  | none ↦ false
  | some avail ↦ eqb avail 0
]

unfoldable get_available_data : FlowControlManager → ℕ
get_available_data fc = fc.avail_data

unfoldable get_available_stream_data : FlowControlManager → ℕ → ℕ
get_available_stream_data fc stream_id = elim (get stream_id fc.avail_stream_data) [
  | none ↦ 0
  | some avail ↦ avail
]
