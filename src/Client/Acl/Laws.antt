-- ===== src/Client/Acl/Laws.antt =====
-- What the lists of `RegisterAcl` and `UnregisterAcl` hold.
use datera_csi.Base.{
  String, ◌≡◌, Bool, true, false, List, [], ◌∷◌, arith, ◌||◌, str_eq, eq_iff, if◌then◌else◌,
}
use datera_csi.Client.Sdk.{BackendInitiator}
use datera_csi.Client.Acl.{Initiator, without_tenant, registered, unregistered}

-- An initiator of this path is on the list.
unfoldable pub has_path : String → List BackendInitiator → Bool
has_path p [] = false
has_path p (i ∷ is) = let rest = has_path p is in str_eq i.path p || rest

-- An initiator of another path is on the list.
unfoldable pub has_other : String → List BackendInitiator → Bool
has_other p [] = false
has_other p (i ∷ is) = let rest = has_other p is in if str_eq i.path p then rest else true

-- After `RegisterAcl` a path has access exactly if it is the initiator's own, or belonged to an
-- initiator on the list whose tenant is empty.
pub has_path-registered :
    (c : Initiator) (l : List BackendInitiator) (p : String)
    → has_path p (registered c l) ≡ (str_eq c.path p || has_path p (without_tenant l))
unfolding registered has_path
has_path-registered c [] p = ground arith
has_path-registered c (i ∷ l) p = ground (arith, has_path-registered c l p)

-- After `UnregisterAcl` the initiator still has access exactly if another path had it before, and no
-- other path has access.
pub has_path-unregistered :
    (c : Initiator) (l : List BackendInitiator) (p : String)
    → has_path p (unregistered c l) ≡ (if str_eq c.path p then has_other c.path l else false)
unfolding unregistered has_path has_other
has_path-unregistered c [] p = ground arith
has_path-unregistered c (i ∷ l) p = ground (arith, has_path-unregistered c l p, eq_iff c.path p)
