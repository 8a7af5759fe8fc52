-- ===== src/Extent/Server/Spec.antt =====
-- What the extent server promises: a store from extent numbers to contents. The times in the
-- attributes are left out; the size is in.
use mathlib.Core.Path.{fun_ext}
use cse_yet_another_file_sys.Base.{
  ℕ, ◌≡◌, refl, ap, ◌∙◌, Bool, true, false, ◌==◌, if◌then◌else◌, Option, none, some, List, [], ◌∷◌,
  map, Bytes, length, lookup, lookup-insert, lookup-erase, arith, Map, insert, erase, ◌++◌, inl,
  inr, Bool-cases, Option-cases,
}
use cse_yet_another_file_sys.Rpc.Status.{ok, err, u32}
use cse_yet_another_file_sys.Extent.Server
use cse_yet_another_file_sys.Extent.Server.{Attr, ExtentServer}
use cse_yet_another_file_sys.Extent.Server.Calls.{
  Call, get, getattr, remove, put, Reply, got, got_attr, done, serve, run, Event, starts, ends,
  Threads, no_race, happen, history,
}
use cse_yet_another_file_sys.Extent.Server.Invariant.{
  IsConsistent, content, init-IsConsistent, put-IsConsistent, get-IsConsistent, remove-IsConsistent,
}

abbrev pub Store : Type 0
Store = ℕ → Option Bytes

pub data Seen : Type 0 where
  content_is : Option Bytes → Seen
  size_is : Option ℕ → Seen
  succeeded : Bool → Seen

-- What a client learns of a reply.
abbrev pub observe : Reply → Seen
observe (got (ok buf)) = content_is (some buf)
observe (got (err f)) = content_is none
observe (got_attr (ok a)) = size_is (some a.size)
observe (got_attr (err f)) = size_is none
observe (done (ok u)) = succeeded true
observe (done (err f)) = succeeded false

abbrev size_of : Option Bytes → Option ℕ
size_of none = none
size_of (some buf) = some (u32 (length buf))

abbrev is_there : Option Bytes → Bool
is_there none = false
is_there (some buf) = true

-- The reply to a call, and the store after it.
abbrev pub answer : Store → Call → Seen
answer st (get id) = content_is (st id)
answer st (getattr id) = size_is (size_of (st id))
answer st (put id buf) = succeeded true
answer st (remove id) = succeeded (is_there (st id))

abbrev pub update : Store → Call → Store
update st (get id) = st
update st (getattr id) = st
update st (put id buf) = λ j. if id == j then some buf else st j
update st (remove id) = λ j. if id == j then none else st j

abbrev pub answers : Store → List (ℕ × Call) → List Seen
answers st [] = []
answers st ((now, c) ∷ cs) = answer st c ∷ answers (update st c) cs

-- The store of a new server: the root directory, empty.
abbrev pub root_only : Store
root_only id = if 1 == id then some [] else none

serve-IsConsistent :
    (now : ℕ) (s : ExtentServer) (c : Call) → IsConsistent s → IsConsistent (serve now s c).1
unfolding serve
serve-IsConsistent now s (get id) h = get-IsConsistent now s id h
serve-IsConsistent now s (getattr id) h = h
serve-IsConsistent now s (put id buf) h = put-IsConsistent now s id buf h
serve-IsConsistent now s (remove id) h = remove-IsConsistent s id h

-- One call: the reply is the store's, and so is the content afterwards.
observe-serve :
    (now : ℕ) (s : ExtentServer) (c : Call)
    → IsConsistent s
    → observe (serve now s c).0 ≡ answer (content s) c
unfolding serve Server.get Server.getattr Server.put Server.remove
observe-serve now s (get id) h = ground (arith, h id)
observe-serve now s (getattr id) h = ground (arith, h id)
observe-serve now s (put id buf) h = refl
observe-serve now s (remove id) h = ground (arith, h id)

content-serve :
    (now : ℕ) (s : ExtentServer) (c : Call) (j : ℕ)
    → IsConsistent s
    → content (serve now s c).1 j ≡ update (content s) c j
unfolding serve Server.get Server.getattr Server.put Server.remove
content-serve now s (get id) j h = ground (arith, h id)
content-serve now s (getattr id) j h = refl
content-serve now s (put id buf) j h = lookup-insert id j buf s.content_map
content-serve now s (remove id) j h = ground (arith, h id, h j, lookup-erase id j s.content_map)

run-refines :
    (s : ExtentServer) (cs : List (ℕ × Call))
    → IsConsistent s
    → map observe (run s cs) ≡ answers (content s) cs
unfolding run
run-refines s [] h = refl
run-refines s ((now, c) ∷ cs) h =
    rw (observe-serve now s c h, run-refines (serve now s c).1 cs (serve-IsConsistent now s c h))
      (rw (fun_ext (λ j. content-serve now s c j h)))

init-content : (now : ℕ) → content (Server.init now) ≡ root_only
unfolding Server.init lookup
init-content now = refl

run-init :
    (now : ℕ) (cs : List (ℕ × Call)) → map observe (run (Server.init now) cs) ≡ answers root_only cs
run-init now cs =
    rw (run-refines (Server.init now) cs (init-IsConsistent now)) (rw (init-content now))

abbrev with_call : Option (ℕ × Call) → List (ℕ × Call) → List (ℕ × Call)
with_call none cs = cs
with_call (some c) cs = c ∷ cs

-- The calls of a history, in the order in which they end.
abbrev pub finished : List Event → Map (ℕ × Call) → List (ℕ × Call)
finished [] is = []
finished (starts t now c ∷ es) is = finished es (insert t (now, c) is)
finished (ends t ∷ es) is = with_call (lookup t is) (finished es (erase t is))

happen-history :
    (e : Event) (es : List Event) (s : Threads) (rs : List Reply)
    → history (e ∷ es) s ≡ some rs
    → (now : List Reply) × (s1 : Threads) × (later : List Reply) × (happen e s ≡ some (now, s1))
      × (history es s1 ≡ some later)
      × (rs ≡ now ++ later)
unfolding history
happen-history e es s rs h = elim (Option-cases (happen e s)) [
  | inl never ↦ let no : none ≡ some rs = rw (history, never) at h in cc
  | inr ((now, s1), went) ↦ elim (Option-cases (history es s1)) [
    | inl never ↦ let no : none ≡ some rs = rw (history, went, never) at h in cc
    | inr (later, rest) ↦
        let same : some (now ++ later) ≡ some rs = rw (history, went, rest) at h in
        (now, s1, later, went, rest, cc)
  ]
]

-- Without a race, the replies are those of the calls one after another.
history-run :
    (es : List Event) (s : Threads) (rs : List Reply)
    → history es s ≡ some rs
    → rs ≡ run s.server (finished es s.inside)
unfolding history run happen
history-run [] s rs h = cc
history-run (starts t now c ∷ es) s rs h =
    let (first, s1, later, went, rest, all) = happen-history (starts t now c) es s rs h in
    elim (Bool-cases (no_race t c s.inside)) [
      | inl free ↦
          let s2 : Threads = record s { inside = insert t (now, c) s.inside } in
          let made : some ([], s2) ≡ some (first, s1) = rw free at went in
          let is_first : first ≡ [] = cc in
          let is_s1 : s1 ≡ s2 = cc in
          all
          ∙ rw is_first (
              history-run es s1 later rest
              ∙ ap (λ (x : Threads). run x.server (finished es x.inside)) is_s1)
      | inr race ↦ let never : none ≡ some (first, s1) = rw race at went in cc
    ]
history-run (ends t ∷ es) s rs h =
    let (first, s1, later, went, rest, all) = happen-history (ends t) es s rs h in
    elim (Option-cases (lookup t s.inside)) [
      | inl absent ↦ let never : none ≡ some (first, s1) = rw absent at went in cc
      | inr ((now, c), found) ↦
          let (r, server) = serve now s.server c in
          let s2 : Threads = record { server = server; inside = erase t s.inside } in
          let made : some (r ∷ [], s2) ≡ some (first, s1) = rw found at went in
          let is_first : first ≡ r ∷ [] = cc in
          let is_s1 : s1 ≡ s2 = cc in
          rw found (
            all
            ∙ rw is_first (
                ap (◌∷◌ r) (
                  history-run es s1 later rest
                  ∙ ap (λ (x : Threads). run x.server (finished es x.inside)) is_s1)))
    ]

-- A new extent server, whose handlers run on any threads and at any times: as long as no handler
-- runs beside one that changes anything (which would be a data race, since the server takes no
-- mutex), the replies are those of a plain store from extent numbers to contents that holds the empty
-- root directory at first and gets the calls in the order in which their handlers end: a get returns
-- what was last put, getattr gives its size modulo 2^32, and an extent that was never put, or was
-- removed since, is reported as missing.
pub history-answers :
    (now : ℕ) (es : List Event) (rs : List Reply)
    → history es (record { server = Server.init now; inside = [] }) ≡ some rs
    → map observe rs ≡ answers root_only (finished es [])
history-answers now es rs h =
    rw (history-run es (record { server = Server.init now; inside = [] }) rs h) (run-init now _)
