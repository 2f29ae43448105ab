-- ===== src/Auth/FlowControl/Windows.antt =====
-- server/webbou/auth.go, `FlowControlManager`: what the windows admit.
use web_bou.Prelude.{
  nat_eq, ap, ℕ, ◌+◌, ◌-◌, ◌≤◌, ◌<◌, ◌≡◌, ◌≢◌, true, false, Option, none, some, List, [], ◌∷◌, eqb,
  if◌then◌else◌, arith,
}
use web_bou.Prelude.Words.{u64_mod, sub64}
use web_bou.Prelude.Maps.{get, get-put, eq_self}
use web_bou.Auth.FlowControl.{FlowControlManager, consume_data, consume_window, consume_stream_data}

-- The amounts that a run of `ConsumeData` calls admits, and the manager after it.
pub consume_run : FlowControlManager → List ℕ → FlowControlManager × ℕ
consume_run fc [] = (fc, 0)
consume_run fc (amount ∷ amounts) =
    let (fc', admitted) = consume_data fc amount in
    let (last, sum) = consume_run fc' amounts in (last, (if admitted then amount else 0) + sum)

consume_data_exact :
    (fc : FlowControlManager) (amount : ℕ)
    → (consume_data fc amount).0.avail_data + (if (consume_data fc amount).1 then amount else 0)
      ≡ fc.avail_data
unfolding consume_data
consume_data_exact fc amount = ground arith

-- Over any sequence of `ConsumeData` calls, what was admitted and what is left make up the window
-- exactly: the connection never sends more than it was granted.
pub consume_run_exact :
    (fc : FlowControlManager) (amounts : List ℕ)
    → (consume_run fc amounts).0.avail_data + (consume_run fc amounts).1 ≡ fc.avail_data
unfolding consume_run
consume_run_exact fc [] = omega arith
consume_run_exact fc (amount ∷ amounts) =
    omega
      (arith, consume_data_exact fc amount, consume_run_exact (consume_data fc amount).0 amounts)

-- The window that the next `ConsumeStreamData` on a stream starts from.
abbrev stream_window : FlowControlManager → Option ℕ → ℕ
stream_window fc none = fc.max_stream_data
stream_window fc (some avail) = avail

consume_window_within :
    (fc : FlowControlManager) (s amount : ℕ) (found : Option ℕ)
    → stream_window fc found < u64_mod
    → amount ≤ stream_window fc found
    → ((consume_window fc s amount found).1 ≡ true)
      × (get s (consume_window fc s amount found).0.avail_stream_data
          ≡ some (stream_window fc found - amount))
unfolding consume_window
consume_window_within fc s amount none w h = (
  ground arith,
  rw (get-put s s (sub64 fc.max_stream_data amount) fc.avail_stream_data, eq_self s)
      (ap some (omega arith)),
)
consume_window_within fc s amount (some avail) w h =
    ground (arith, get-put s s (avail - amount) fc.avail_stream_data, eq_self s)

-- Data within a stream's window is admitted and shrinks the window by its size, also on the first
-- use of the stream, where the window is the default one.
consume_stream_data_within :
    (fc : FlowControlManager) (s amount : ℕ)
    → stream_window fc (get s fc.avail_stream_data) < u64_mod
    → amount ≤ stream_window fc (get s fc.avail_stream_data)
    → ((consume_stream_data fc s amount).1 ≡ true)
      × (get s (consume_stream_data fc s amount).0.avail_stream_data
          ≡ some (stream_window fc (get s fc.avail_stream_data) - amount))
unfolding consume_stream_data
consume_stream_data_within fc s amount w h =
    consume_window_within fc s amount (get s fc.avail_stream_data) w h

consume_window_other :
    (fc : FlowControlManager) (s j amount : ℕ) (found : Option ℕ)
    → eqb s j ≡ false
    → get j (consume_window fc s amount found).0.avail_stream_data ≡ get j fc.avail_stream_data
unfolding consume_window
consume_window_other fc s j amount none ne =
    rw (get-put s j (sub64 fc.max_stream_data amount) fc.avail_stream_data, ne)
consume_window_other fc s j amount (some avail) ne =
    ground (arith, get-put s j (avail - amount) fc.avail_stream_data)

-- A stream's traffic, admitted or not, leaves the windows of the other streams and of the
-- connection alone.
consume_stream_data_other :
    (fc : FlowControlManager) (s j amount : ℕ)
    → s ≢ j
    → get j (consume_stream_data fc s amount).0.avail_stream_data ≡ get j fc.avail_stream_data
unfolding consume_stream_data
consume_stream_data_other fc s j amount ne =
    consume_window_other fc s j amount (get s fc.avail_stream_data) (ground arith)

-- The window that wrapped holds 2 ^ 64 less the excess.
consume_window_wraps :
    (fc : FlowControlManager) (s amount : ℕ)
    → fc.max_stream_data < amount
    → amount < u64_mod
    → ((consume_window fc s amount none).1 ≡ false)
      × (get s (consume_window fc s amount none).0.avail_stream_data
          ≡ some (fc.max_stream_data + (u64_mod - amount)))
unfolding consume_window
consume_window_wraps fc s amount over word = (
  ground arith,
  rw (get-put s s (sub64 fc.max_stream_data amount) fc.avail_stream_data, eq_self s)
      (ap some (omega arith)),
)

-- Data beyond the default window on the first use of a stream is refused, but the window wraps: any
-- amount up to 2 ^ 64 less the excess is admitted by the next call on the stream.
pub consume_stream_data_wraps :
    (fc : FlowControlManager) (s amount next : ℕ)
    → get s fc.avail_stream_data ≡ none
    → fc.max_stream_data < amount
    → amount < u64_mod
    → next ≤ fc.max_stream_data + (u64_mod - amount)
    → ((consume_stream_data fc s amount).1 ≡ false)
      × ((consume_stream_data (consume_stream_data fc s amount).0 s next).1 ≡ true)
unfolding consume_stream_data
consume_stream_data_wraps fc s amount next fresh over word h =
    let (refused, window) = consume_window_wraps fc s amount over word in
    let after = (consume_window fc s amount none).0 in
    rw fresh (
      refused,
      rw window
          (consume_window_within after s next (some (fc.max_stream_data + (u64_mod - amount)))
            (omega arith) h).0,
    )
