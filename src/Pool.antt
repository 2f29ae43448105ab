-- ===== src/Pool.antt =====
-- server/webbou/pool.go: the pools of buffers and frames. A `sync.Pool` hands out any of its items, or a
-- new one; which, is the argument `choice`, where `none` is a new one. A negative size counts as 0.
pub mod SpinLock
pub mod Buffers
pub mod Reputation
use web_bou.Prelude.{ℕ, zero, suc, Option, none, some, List, [], ◌∷◌, leb, if◌then◌else◌}
use web_bou.Encoding.{Bytes}
use web_bou.Protocol.{Frame}

-- The item at a place, if there is one, and the others.
abbrev put_back {ℓ} : {A : Type ℓ} → A → Option (A × List A) → Option (A × List A)
put_back x none = none
put_back x (some (y, ys)) = some (y, x ∷ ys)

abbrev pick {ℓ} : {A : Type ℓ} → List A → ℕ → Option (A × List A)
pick [] i = none
pick (x ∷ xs) zero = some (x, xs)
pick (x ∷ xs) (suc i) = put_back x (pick xs i)

abbrev or_new {ℓ} : {A : Type ℓ} → A → List A → Option (A × List A) → A × List A
or_new fresh items none = (fresh, items)
or_new fresh items (some (x, rest)) = (x, rest)

-- `pool.Get()`.
unfoldable pub get_item {ℓ} : {A : Type ℓ} → A → List A → Option ℕ → A × List A
get_item fresh items none = (fresh, items)
get_item fresh items (some i) = or_new fresh items (pick items i)

-- `make([]byte, size)`.
abbrev zeros : ℕ → Bytes
zeros zero = []
zeros (suc n) = 0 ∷ zeros n

pub record BufferPool : Type 0 where
  pub items : List Bytes
  pub size : ℕ

unfoldable pub new_buffer_pool : ℕ → BufferPool
new_buffer_pool size = record { items = []; size = size }

unfoldable pub take_buffer : BufferPool → Option ℕ → Bytes × BufferPool
take_buffer bp choice =
    let (buf, rest) = get_item (zeros bp.size) bp.items choice in (buf, record bp { items = rest })

unfoldable return_buffer : BufferPool → Bytes → BufferPool
return_buffer bp buf = record bp { items = buf ∷ bp.items }

-- The package's three pools.
pub record Pools : Type 0 where
  pub small_buffer_pool : BufferPool
  pub medium_buffer_pool : BufferPool
  pub large_buffer_pool : BufferPool

unfoldable pub new_pools : Pools
unfolding new_buffer_pool
new_pools = record {
  small_buffer_pool = new_buffer_pool 4096;
  medium_buffer_pool = new_buffer_pool 16384;
  large_buffer_pool = new_buffer_pool 65536;
}

unfoldable pub get_buffer : Pools → ℕ → Option ℕ → Bytes × Pools
get_buffer ps size choice =
    if leb size 4096
    then (let (buf, bp) = take_buffer ps.small_buffer_pool choice in
        (buf, record ps { small_buffer_pool = bp }))
    else if leb size 16384
    then (let (buf, bp) = take_buffer ps.medium_buffer_pool choice in
        (buf, record ps { medium_buffer_pool = bp }))
    else (let (buf, bp) = take_buffer ps.large_buffer_pool choice in
        (buf, record ps { large_buffer_pool = bp }))

unfoldable put_buffer : Pools → Bytes → ℕ → Pools
put_buffer ps buf size =
    if leb size 4096
    then record ps { small_buffer_pool = return_buffer ps.small_buffer_pool buf }
    else if leb size 16384
    then record ps { medium_buffer_pool = return_buffer ps.medium_buffer_pool buf }
    else record ps { large_buffer_pool = return_buffer ps.large_buffer_pool buf }

-- `FramePool`; its one field is the pool. A new frame is the zero value.
abbrev zero_frame : Frame
zero_frame = record {
  magic = 0;
  version = 0;
  frame_type = 0;
  flags = 0;
  stream_id = 0;
  length = 0;
  checksum = 0;
  payload = [];
}

unfoldable get_frame : List Frame → Option ℕ → Frame × List Frame
get_frame items choice = get_item zero_frame items choice

-- Only the payload and the flags are reset.
unfoldable put_frame : List Frame → Frame → List Frame
put_frame items frame = record frame { payload = []; flags = 0 } ∷ items

-- The package's pool of frames, through `GetFrame` and `PutFrame`.
record Package : Type 0 where
  pub pools : Pools
  pub frame_pool : List Frame

unfoldable new_package : Package
new_package = record { pools = new_pools; frame_pool = [] }

unfoldable get_package_frame : Package → Option ℕ → Frame × Package
get_package_frame p choice =
    let (frame, rest) = get_frame p.frame_pool choice in (frame, record p { frame_pool = rest })

unfoldable put_package_frame : Package → Frame → Package
put_package_frame p frame = record p { frame_pool = put_frame p.frame_pool frame }
