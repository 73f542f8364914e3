-- ===== src/Httpd/Connection.antt =====
-- `handle_connection` of httpd.c, called for each piece of a request.
use volans.Prelude.{
  ℕ, ◌≡◌, ◌≢◌, refl, sym, ◌∙◌, ap, Option, none, some, List, [], ◌∷◌, ◌++◌, append_assoc, concat,
  append-nil, All,
}
use volans.Views.Store.{Run, ◌>>=◌, return}
use volans.Rpc.{Rpc, Status}
use volans.Httpd.{Answer, Outcome, accepted, queued, handle_connection, answer_for}

module _ {Rr View : Type 0} (decode : List ℕ → List ℕ → Option (Option (Rpc Rr)))
    (dispatching : Rpc Rr → Run View Status) (url method : List ℕ) where
  -- The calls that the HTTP library makes for a request, up to the one that answers it.
  abbrev pub serve_next :
      (Option (List ℕ) → Run View (Option Answer))
      → Option (List ℕ) × Outcome decode dispatching
      → Run View (Option Answer)
  serve_next rest (con, accepted) = rest con
  serve_next rest (con, queued a) = return (some a)

  unfoldable pub serve : List (List ℕ) → Option (List ℕ) → Run View (Option Answer)
  unfolding handle_connection
  serve [] con v = some (none, v)
  serve (upload ∷ uploads) con v =
      (handle_connection decode dispatching url method con upload >>= serve_next (serve uploads)) v

  abbrev pub answer_to : Option (Outcome decode dispatching × View) → Option (Option Answer × View)
  answer_to none = none
  answer_to (some (accepted, v)) = some (none, v)
  answer_to (some (queued a, v)) = some (some a, v)

  last_call :
      (buf : List ℕ) (o : Option (Outcome decode dispatching × View))
      → (elim (elim o as (λ _. Option ((Option (List ℕ) × Outcome decode dispatching) × View)) [
        | none ↦ none
        | some (outcome, v') ↦ some ((some buf, outcome), v')
      ])
          as (λ _. Option (Option Answer × View)) [
            | none ↦ none
            | some (a, v') ↦ serve_next (serve []) a v'
          ])
        ≡ answer_to o
  unfolding serve
  last_call buf none = refl
  last_call buf (some (accepted, v)) = refl
  last_call buf (some (queued a, v)) = refl

  serve_pieces :
      (ps : List (List ℕ)) (buf : List ℕ) (v : View)
      → All (λ p. p ≢ []) ps
      → serve (ps ++ [] ∷ []) (some buf) v
        ≡ answer_to (answer_for decode dispatching url method (buf ++ concat ps) v)
  unfolding serve handle_connection
  serve_pieces [] buf v h =
      last_call buf (answer_for decode dispatching url method buf v)
      ∙ ap (λ t. answer_to (answer_for decode dispatching url method t v)) (sym (append-nil buf))
  serve_pieces ([] ∷ ps) buf v h = absurd (h.0 refl)
  serve_pieces ((b ∷ bs) ∷ ps) buf v h =
      serve_pieces ps (buf ++ b ∷ bs) v h.1
      ∙ ap (λ t. answer_to (answer_for decode dispatching url method t v))
          (append_assoc buf (b ∷ bs) (concat ps))

  -- A request whose body comes in pieces, of which those after the first are not empty, has the
  -- effect on the view and the answer that it has if the body comes in one piece.
  pub serve_lem :
      (p : List ℕ) (ps : List (List ℕ)) (v : View)
      → All (λ p. p ≢ []) ps
      → serve (p ∷ (ps ++ [] ∷ [])) none v ≡ serve ((p ++ concat ps) ∷ [] ∷ []) none v
  unfolding serve handle_connection
  serve_lem p ps v h =
      serve_pieces ps p v h
      ∙ sym
          (last_call (p ++ concat ps) (answer_for decode dispatching url method (p ++ concat ps) v))
