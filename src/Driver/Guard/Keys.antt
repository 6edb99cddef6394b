-- ===== src/Driver/Guard/Keys.antt =====
-- Which calls have one key.
use datera_csi.Base.{String, ◌<>◌, ◌≡◌, ◌∙◌, ap, sym, List, ◌∷◌}
use datera_csi.Base.Text.{split, join, Lacks, split-join, join-split}
use datera_csi.Driver.Guard.{request_key}

split-request_key :
    (piece name shown : String)
    → Lacks b'|' piece
    → Lacks b'|' name
    → split b'|' (request_key piece name shown) ≡ piece ∷ name ∷ split b'|' shown
unfolding request_key join
split-request_key piece name shown h k =
    rw (split-join "|" piece (name <> ("|" <> shown)) h, split-join "|" name shown k)

-- The parts of a key, taken from its split.
parts_of : List String → String × String × String
parts_of (piece ∷ name ∷ rest) = (piece, name, join "|" rest)
parts_of _ = ("", "", "")

parts-request_key :
    (piece name shown : String)
    → Lacks b'|' piece
    → Lacks b'|' name
    → parts_of (split b'|' (request_key piece name shown)) ≡ (piece, name, shown)
unfolding parts_of
parts-request_key piece name shown h k =
    rw (split-request_key piece name shown h k, join-split "|" shown)

-- Two calls have one key only if they are calls of one method of one service with requests that are
-- shown alike, if the names of the services and methods have no bar. So the guard never refuses a call
-- for the sake of a call of another method.
pub request_key-injective :
    (piece name shown piece' name' shown' : String)
    → Lacks b'|' piece
    → Lacks b'|' name
    → Lacks b'|' piece'
    → Lacks b'|' name'
    → request_key piece name shown ≡ request_key piece' name' shown'
    → (piece ≡ piece') × (name ≡ name') × (shown ≡ shown')
request_key-injective piece name shown piece' name' shown' h k h' k' e =
    let q =
      sym (parts-request_key piece name shown h k)
      ∙ ap (λ s. parts_of (split b'|' s)) e
      ∙ parts-request_key piece' name' shown' h' k' in
    (ap (λ p. p.0) q, ap (λ p. p.1) q, ap (λ p. p.2) q)
