-- ===== src/Common/SnapId.antt =====
-- Snapshot ids of pkg/common/util.go: `MkSnapId`, `ParseSnapId`; `validateSnapId` of
-- pkg/driver/controller.go.
use datera_csi.Base.{String, ◌≡◌, refl, ◌∙◌, List, [], ◌∷◌}
use datera_csi.Base.Text.{split, join, Lacks, split-join, split-Lacks, join-split}
use datera_csi.Base.Go.{Result, ok, err, plain}

-- The character ':'.
abbrev pub colon : String → List String
colon = split b':'

unfoldable pub mk_snap_id : String → String → String
unfolding join
mk_snap_id vol snap = join ":" (vol ∷ snap ∷ [])

-- The two parts; both are "" where the id does not have exactly one colon.
two_parts : List String → String × String
two_parts (vid ∷ sid ∷ []) = (vid, sid)
two_parts _ = ("", "")

unfoldable pub parse_snap_id : String → String × String
unfolding two_parts
parse_snap_id snap_id = two_parts (colon snap_id)

check_parts : List String → Result (Unit {0})
check_parts (vid ∷ sid ∷ []) = ok tt
check_parts _ = err (
    plain
      "Snapshot ID invalid.  Example: CSI-pvc-2071cca0-3259-11e9-aba5-003048f5d94a:1550370547.151396819")

unfoldable pub validate_snap_id : String → Result (Unit {0})
unfolding check_parts
validate_snap_id snap_id = check_parts (colon snap_id)

-- An id made of two texts without a colon is parsed back to the two.
pub parse_snap_id-mk_snap_id :
    (vol snap : String)
    → Lacks b':' vol
    → Lacks b':' snap
    → parse_snap_id (mk_snap_id vol snap) ≡ (vol, snap)
unfolding parse_snap_id mk_snap_id
parse_snap_id-mk_snap_id vol snap h k = rw (split-join ":" vol snap h, split-Lacks b':' snap k)

two_parts-join :
    (parts : List String)
    → check_parts parts ≡ ok tt
    → join ":" ((two_parts parts).0 ∷ (two_parts parts).1 ∷ []) ≡ join ":" parts
unfolding check_parts two_parts
two_parts-join (vid ∷ sid ∷ []) h = refl
two_parts-join [] h = cc
two_parts-join (vid ∷ []) h = cc
two_parts-join (vid ∷ sid ∷ p ∷ ps) h = cc

-- An id that is valid is made of the two parts that it is parsed to.
pub mk_snap_id-parse_snap_id :
    (snap_id : String)
    → validate_snap_id snap_id ≡ ok tt
    → mk_snap_id (parse_snap_id snap_id).0 (parse_snap_id snap_id).1 ≡ snap_id
unfolding validate_snap_id parse_snap_id mk_snap_id
mk_snap_id-parse_snap_id snap_id h = two_parts-join (colon snap_id) h ∙ join-split ":" snap_id
