-- ===== src/Hybrid/Loops.antt =====
-- experimental/main.go: the loops of the hybrid server one by one, and sums over them.
use web_bou.Prelude.{
  ℕ, ◌≡◌, ap, sym, ◌∙◌, Option, none, some, List, [], ◌∷◌, ◌++◌, append-nil, length, All,
}
use web_bou.Hybrid.{web_socket, stream, Message, Loop, read_message, write_message}

abbrev pub sockets : Loop → ℕ
sockets l = elim l.kind [ web_socket ↦ 1 | stream ↦ 0 ]

abbrev pub messages : Loop → ℕ
messages l = length l.received

abbrev pub pending_list : Option Message → List Message
pending_list none = []
pending_list (some msg) = msg ∷ []

-- Every message but the last was written back, in order and unchanged.
abbrev pub IsEcho : Loop → Type 0
IsEcho l = l.received ≡ l.echoed ++ pending_list l.pending

pub All-at :
    (P : Loop → Type 0) (before : List Loop) (l : Loop) (later : List Loop)
    → All P (before ++ l ∷ later)
    → P l × ((k : Loop) → P k → All P (before ++ k ∷ later)) × All P (before ++ later)
All-at P [] l later (h, hs) = (h, (λ k hk. (hk, hs)), hs)
All-at P (x ∷ before) l later (h, hs) =
    let (own, put, rest) = All-at P before l later hs in (own, (λ k hk. (h, put k hk)), (h, rest))

pub read-IsEcho :
    (l : Loop) (msg : Message) → IsEcho l → l.pending ≡ none → IsEcho (read_message l msg)
unfolding read_message
read-IsEcho l msg h e =
    ap (λ xs. xs ++ msg ∷ []) (h ∙ ap (λ p. l.echoed ++ pending_list p) e ∙ append-nil l.echoed)

pub write-IsEcho :
    (l : Loop) (msg : Message) → IsEcho l → l.pending ≡ some msg → IsEcho (write_message l msg)
unfolding write_message
write-IsEcho l msg h e =
    h ∙ ap (λ p. l.echoed ++ pending_list p) e ∙ sym (append-nil (l.echoed ++ msg ∷ []))
