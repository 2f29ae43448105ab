-- ===== src/Server/Loop.antt =====
-- server/webbou/server.go: the read loops that `handleTCPConnection` and `handleStream` share, over
-- the body that handles one frame, for what the connection delivers in a time: a list of chunks. Where
-- `stop` is `need_more`, the loops are at `Read` again after them, and either wait there or get an error,
-- which ends them; otherwise they have ended.
use web_bou.Prelude.{ℕ, zero, suc, Option, none, some, List, [], ◌∷◌, length}
use web_bou.Encoding.{Bytes}
use web_bou.Protocol.{Frame, Outcome, ok, err, panic}
use web_bou.Protocol.Reader.{
  FrameReader, feed, read_frame, Stop, need_more, failed, crashed, out_of_fuel,
}

pub record Round (S : Type 0) : Type 0 where
  pub served : S
  pub reader : FrameReader
  pub stop : Stop

abbrev pub end_round : {S : Type 0} → Stop → S → FrameReader → Round S
end_round stop s fr = record { served = s; reader = fr; stop = stop }

abbrev pub next_chunk : {S : Type 0} → Stop → Round S → Round S → Round S
next_chunk need_more r rest = rest
next_chunk _ r rest = r

module _ {S : Type 0} (body : S → Frame → S) where
  abbrev pub next_round : S → FrameReader → Outcome (Option Frame) → (S → Round S) → Round S
  next_round s fr (ok none) rest = end_round need_more s fr
  next_round s fr (ok (some frame)) rest = rest (body s frame)
  next_round s fr (err e) rest = end_round (failed e) s fr
  next_round s fr panic rest = end_round crashed s fr

  -- The inner loop, with fuel.
  unfoldable pub serve_buffer : ℕ → FrameReader → S → Round S
  serve_buffer zero fr s = end_round out_of_fuel s fr
  serve_buffer (suc fuel) fr s =
      let (fr', outcome) = read_frame fr in next_round s fr' outcome (serve_buffer fuel fr')

  -- The outer loop. The buffer's length is fuel enough for the inner one (Server/Delivery).
  unfoldable pub serve_chunks : List Bytes → FrameReader → S → Round S
  serve_chunks [] fr s = end_round need_more s fr
  serve_chunks (chunk ∷ chunks) fr s =
      let fed = feed fr chunk in
      let r = serve_buffer (suc (length fed.buffer)) fed s in
      let rest = serve_chunks chunks r.reader r.served in next_chunk r.stop r rest
