-- ===== src/Pool/Buffers.antt =====
-- server/webbou/pool.go, `GetBuffer`, `PutBuffer`, `GetFrame` and `PutFrame`: what a pool hands out.
use web_bou.Prelude.{
  ℕ, zero, suc, ◌≤◌, ◌≡◌, refl, sym, subst, ap, ◌∙◌, Option, none, some, List, [], ◌∷◌, length, leb,
  All, if◌then◌else◌, arith, Bool, true, false,
}
use web_bou.Encoding.{Bytes}
use web_bou.Protocol.{Frame}
use web_bou.Pool.{
  put_back, pick, or_new, get_item, zeros, BufferPool, new_buffer_pool, take_buffer, return_buffer,
  Pools, new_pools, get_buffer, put_buffer, zero_frame, get_frame, put_frame,
}

module _ {ℓ κ} {A : Type ℓ} (P : A → Type κ) where
  abbrev AllPicked : Option (A × List A) → Type κ
  AllPicked none = Unit
  AllPicked (some (x, rest)) = P x × All P rest

  put_back-AllPicked :
      (y : A) (o : Option (A × List A)) → P y → AllPicked o → AllPicked (put_back y o)
  put_back-AllPicked y none h k = k
  put_back-AllPicked y (some (x, rest)) h k = (k.0, (h, k.1))

  pick-AllPicked : (items : List A) (i : ℕ) → All P items → AllPicked (pick items i)
  pick-AllPicked [] i h = tt
  pick-AllPicked (y ∷ ys) zero h = h
  pick-AllPicked (y ∷ ys) (suc i) h = put_back-AllPicked y (pick ys i) h.0 (pick-AllPicked ys i h.1)

  or_new-All :
      (fresh : A) (items : List A) (o : Option (A × List A))
      → P fresh
      → All P items
      → AllPicked o
      → P (or_new fresh items o).0 × All P (or_new fresh items o).1
  or_new-All fresh items none f h k = (f, h)
  or_new-All fresh items (some (x, rest)) f h k = k

  -- What holds of a new item and of all items holds of the one handed out and of those that stay.
  get_item-All :
      (fresh : A) (items : List A) (choice : Option ℕ)
      → P fresh
      → All P items
      → P (get_item fresh items choice).0 × All P (get_item fresh items choice).1
  unfolding get_item
  get_item-All fresh items none f h = (f, h)
  get_item-All fresh items (some i) f h =
      or_new-All fresh items (pick items i) f h (pick-AllPicked items i h)

length-zeros : (n : ℕ) → length (zeros n) ≡ n
length-zeros zero = refl
length-zeros (suc n) = ap suc (length-zeros n)

-- The size of the buffers that serve a request.
abbrev pub class_size : ℕ → ℕ
class_size size = if leb size 4096 then 4096 else if leb size 16384 then 16384 else 65536

size≤class_size : (size : ℕ) → size ≤ 65536 → size ≤ class_size size
size≤class_size size h = ground arith

abbrev IsFull : BufferPool → Type 0
IsFull bp = All (λ buf. length buf ≡ bp.size) bp.items

-- Each pool holds buffers of its own size.
abbrev IsFilled : Pools → Type 0
IsFilled ps =
    (IsFull ps.small_buffer_pool × ps.small_buffer_pool.size ≡ 4096)
    × ((IsFull ps.medium_buffer_pool × ps.medium_buffer_pool.size ≡ 16384)
        × (IsFull ps.large_buffer_pool × ps.large_buffer_pool.size ≡ 65536))

new_pools-IsFilled : IsFilled new_pools
unfolding new_pools new_buffer_pool
new_pools-IsFilled = ((tt, refl), ((tt, refl), (tt, refl)))

take_buffer-IsFull :
    (bp : BufferPool) (choice : Option ℕ)
    → IsFull bp
    → (length (take_buffer bp choice).0 ≡ bp.size) × IsFull (take_buffer bp choice).1
unfolding take_buffer
take_buffer-IsFull bp choice h =
    get_item-All (λ buf. length buf ≡ bp.size) (zeros bp.size) bp.items choice
      (length-zeros bp.size) h

-- What relates the two branches of one test relates the results.
if_both :
    {A B : Type 0} (R : A → B → Type 0) (b : Bool) (x y : A) (m n : B)
    → R x m
    → R y n
    → R (if b then x else y) (if b then m else n)
if_both R true x y m n h k = h
if_both R false x y m n h k = k

abbrev Hands : Bytes × Pools → ℕ → Type 0
Hands (buf, ps) n = (length buf ≡ n) × IsFilled ps

get_buffer-IsFilled :
    (ps : Pools) (size : ℕ) (choice : Option ℕ)
    → IsFilled ps
    → Hands (get_buffer ps size choice) (class_size size)
unfolding get_buffer take_buffer
get_buffer-IsFilled ps size choice ((s, es), ((m, em), (l, el))) =
    let (small, small_full) = take_buffer-IsFull ps.small_buffer_pool choice s in
    let (medium, medium_full) = take_buffer-IsFull ps.medium_buffer_pool choice m in
    let (large, large_full) = take_buffer-IsFull ps.large_buffer_pool choice l in
    if_both Hands (leb size 4096) _ _ _ _ (small ∙ es, ((small_full, es), ((m, em), (l, el))))
      (if_both Hands (leb size 16384) _ _ _ _ (medium ∙ em, ((s, es), ((medium_full, em), (l, el))))
        (large ∙ el, ((s, es), ((m, em), (large_full, el)))))

put_buffer-IsFilled :
    (ps : Pools) (buf : Bytes) (size : ℕ)
    → IsFilled ps
    → length buf ≡ class_size size
    → IsFilled (put_buffer ps buf size)
unfolding put_buffer return_buffer
put_buffer-IsFilled ps buf size ((s, es), ((m, em), (l, el))) h =
    if_both (λ (after : Pools) (n : ℕ). length buf ≡ n → IsFilled after) (leb size 4096) _ _ _ _
      (λ k. (((k ∙ sym es, s), es), ((m, em), (l, el))))
      (if_both (λ (after : Pools) (n : ℕ). length buf ≡ n → IsFilled after) (leb size 16384) _ _ _ _
        (λ k. ((s, es), (((k ∙ sym em, m), em), (l, el))))
        (λ k. ((s, es), ((m, em), ((k ∙ sym el, l), el)))))
      h

pub data Call : Type 0 where
  get : ℕ → Option ℕ → Call
  put : Bytes → ℕ → Call

abbrev call : Call → Pools → Pools
call (get size choice) ps = (get_buffer ps size choice).1
call (put buf size) ps = put_buffer ps buf size

abbrev pub run : List Call → Pools → Pools
run [] ps = ps
run (c ∷ cs) ps = run cs (call c ps)

-- A buffer goes back to the pool it came from, at its full length.
abbrev IsReturned : Call → Type 0
IsReturned (get size choice) = Unit
IsReturned (put buf size) = length buf ≡ class_size size

run-IsFilled :
    (cs : List Call) (ps : Pools) → All IsReturned cs → IsFilled ps → IsFilled (run cs ps)
run-IsFilled [] ps a h = h
run-IsFilled (get size choice ∷ cs) ps (_, a) h =
    run-IsFilled cs (get_buffer ps size choice).1 a (get_buffer-IsFilled ps size choice h).1
run-IsFilled (put buf size ∷ cs) ps (k, a) h =
    run-IsFilled cs (put_buffer ps buf size) a (put_buffer-IsFilled ps buf size h k)

-- After any calls from the start, whatever items the pools choose, if every buffer goes back to the
-- pool of its request at full length, a request is handed a buffer of exactly 4096, 16384 or 65536
-- bytes, and one for at most 65536 bytes a buffer that is large enough.
pub get_buffer-length :
    (cs : List Call) (size : ℕ) (choice : Option ℕ)
    → All IsReturned cs
    → (length (get_buffer (run cs new_pools) size choice).0 ≡ class_size size)
      × (size ≤ 65536 → size ≤ length (get_buffer (run cs new_pools) size choice).0)
get_buffer-length cs size choice a =
    let e =
      (get_buffer-IsFilled (run cs new_pools) size choice
        (run-IsFilled cs new_pools a new_pools-IsFilled)).0 in
    (e, λ h. subst (λ n. size ≤ n) (sym e) (size≤class_size size h))

-- Calls of `GetFrame` and `PutFrame`.
data FrameCall : Type 0 where
  take : Option ℕ → FrameCall
  give : Frame → FrameCall

abbrev run_frames : List FrameCall → List Frame → List Frame
run_frames [] items = items
run_frames (take choice ∷ cs) items = run_frames cs (get_frame items choice).1
run_frames (give frame ∷ cs) items = run_frames cs (put_frame items frame)

abbrev IsClean : Frame → Type 0
IsClean frame = (frame.payload ≡ []) × (frame.flags ≡ 0)

run_frames-IsClean :
    (cs : List FrameCall) (items : List Frame)
    → All IsClean items
    → All IsClean (run_frames cs items)
unfolding get_frame put_frame
run_frames-IsClean [] items h = h
run_frames-IsClean (take choice ∷ cs) items h =
    run_frames-IsClean cs (get_frame items choice).1
      (get_item-All IsClean zero_frame items choice (refl, refl) h).1
run_frames-IsClean (give frame ∷ cs) items h =
    run_frames-IsClean cs (put_frame items frame) ((refl, refl), h)

-- After any calls from the start, a frame that the pool hands out has no payload and no flag, whoever
-- had it before.
get_frame-clean :
    (cs : List FrameCall) (choice : Option ℕ)
    → ((get_frame (run_frames cs []) choice).0.payload ≡ [])
      × ((get_frame (run_frames cs []) choice).0.flags ≡ 0)
unfolding get_frame
get_frame-clean cs choice =
    (get_item-All IsClean zero_frame (run_frames cs []) choice (refl, refl)
      (run_frames-IsClean cs [] tt)).0
