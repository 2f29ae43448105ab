-- ===== src/Examples/ServerRuns.antt =====
-- Tests of server/webbou/server.go: a connection over TCP.
use web_bou.Prelude.{◌∷◌, take, drop, arith, List, string_eq, nat_eq, ℕ, ◌*◌, ◌≡◌, none, [], ◌++◌}
use web_bou.Protocol.Reader.{need_more, new_frame_reader}
use web_bou.Server.{Payloads, new_session}
use web_bou.Prelude.Int.{pos}
use web_bou.Protocol.Delivery.{wire}
use web_bou.Server.Tcp.{Arrival, read_frames, Limiter, Served}
use web_bou.Server.Replies.{marshals, all_replies, admitted, read_frames-replies}
use web_bou.Prelude.Clock.{Time, second}
use web_bou.Limits.Float.{whole}
use web_bou.Limits.RateLimiter.{new_rate_limiter}
use web_bou.Server.Limited.{Bucket, bucket_limiter}
use web_bou.Examples.ProtocolRuns.{
  two_frames, two_chunks-flatten, hello-IsSendable, ping-IsSendable,
}

-- Payloads that are not encrypted and not compressed.
abbrev pub plain : Payloads
plain = record { decrypt = λ bytes. none; decompress = λ bytes. none }

-- One reading of the clock each second.
abbrev clock : ℕ → Time
clock n = n * second

abbrev pub limiter : Limiter
limiter = bucket_limiter whole clock

abbrev pub bucket : Bucket whole
bucket = record { limiter = new_rate_limiter whole 10 1 0; readings = 1 }

abbrev start : Served limiter
start = record { limiter = bucket; session = new_session "s1" }

-- The two frames in time, and bytes that come too late.
abbrev in_time : List Arrival
in_time =
    record { at = 12 * second; chunk = take 20 (wire two_frames) }
    ∷ record { at = 69 * second; chunk = drop 20 (wire two_frames) }
    ∷ []

abbrev too_late : List Arrival
too_late = record { at = 70 * second; chunk = 1 ∷ 2 ∷ [] } ∷ []

read_frames-replies_example :
    let r =
      read_frames plain limiter "10.0.0.1:5000"
        (pos 100)
        (10 * second)
        (in_time ++ too_late)
        start in
    (r.served.session.written
      ≡ []
        ++ marshals (all_replies plain (admitted plain limiter "10.0.0.1:5000" bucket two_frames)))
    × (r.stop ≡ need_more)
unfolding new_frame_reader
read_frames-replies_example =
    read_frames-replies plain limiter "10.0.0.1:5000" (pos 100) (10 * second) two_frames in_time
      too_late start (hello-IsSendable, (ping-IsSendable, tt)) two_chunks-flatten
      (omega arith, (omega arith, tt)) (omega arith, tt)
