-- ===== src/Driver/Server/Address.antt =====
-- The socket's address before the driver listens on it.
use datera_csi.Base.{
  String, ◌≡◌, ◌≢◌, ◌∙◌, refl, sym, ap, Bool, true, false, not, Option, none, some, arith,
}
use datera_csi.Base.Go.{Error, ok, ◌>>=◌}
use datera_csi.Base.Go.Outcomes.{Ends, bind-Ends}
use datera_csi.Client.Host.{Host, returned}
use datera_csi.Driver.Server.{
  Net, Removed, removed, not_there, not_removed, gone, make_if, clear_address,
}

-- What a removal leaves at the path that is removed, and at any other.
abbrev pub Gone : {S : Type 0} → (S → String → Bool) → String → Removed → S → S → Type 0
Gone exists path (not_removed _) s t = Unit
Gone exists path _ s t =
    (exists t path ≡ false) × ((other : String) → other ≢ path → exists t other ≡ exists s other)

-- What stat, mkdir and remove do with the files, as they are documented. A file stands in a directory.
pub record Files (host : Host) (net : Net host) : Type 0 where
  pub exists : host.State → String → Bool
  pub parent : String → String
  pub parent_other : (path : String) → parent path ≢ path
  pub stands :
      (s : host.State) (path : String) → exists s path ≡ true → exists s (parent path) ≡ true
  pub looks :
      (path : String) (s : host.State)
      → let run = host.is_not_exist path s in
        (run.0 ≡ not (exists s path)) × ((p : String) → exists run.1 p ≡ exists s p)
  pub makes :
      (path : String) (s : host.State)
      → let run = host.mkdir_all path s in run.0 ≡ none → exists run.1 path ≡ true
  pub removes :
      (path : String) (s : host.State)
      → let run = net.remove path s in Gone exists path run.0 s run.1

module _ (host : Host) (net : Net host) (files : Files host net) where
  open files use {exists, parent}

  -- The address is free, and its directory is there.
  abbrev pub IsFree : String → host.State → Type 0
  IsFree addr t = (exists t addr ≡ false) × (exists t (parent addr) ≡ true)

  made :
      (addr : String) (missing : Bool) (s : host.State)
      → missing ≡ not (exists s addr)
      → Ends
          (λ (_ : Unit {0}) (t : host.State). exists t addr ≡ true)
          (make_if host net missing addr s)
  unfolding make_if
  made addr true s e = from (host.mkdir_all addr s).0 (host.mkdir_all addr s).1 (files.makes addr s)
    where
      from :
          (failed : Option Error) (t : host.State)
          → (failed ≡ none → exists t addr ≡ true)
          → Ends (λ (_ : Unit {0}) (t : host.State). exists t addr ≡ true) (returned failed t)
      from none t h = h refl
      from (some e) t h = tt
  made addr false s e = ground arith

  cleared :
      (addr : String) (s : host.State) (r : Removed) (t : host.State)
      → exists s addr ≡ true
      → Gone exists addr r s t
      → Ends (λ (_ : Unit {0}) (t : host.State). IsFree addr t) (gone r t)
  unfolding gone
  cleared addr s removed t h (g, k) =
      (g, k (parent addr) (files.parent_other addr) ∙ files.stands s addr h)
  cleared addr s not_there t h (g, k) =
      (g, k (parent addr) (files.parent_other addr) ∙ files.stands s addr h)
  cleared addr s (not_removed e) t h _ = tt

  -- If the address can be cleared, then it is free and its directory is there, whatever was there
  -- before: neither a socket that was left nor a missing directory is in the way.
  pub clear_address-IsFree :
      (addr : String) (s : host.State)
      → Ends (λ (_ : Unit {0}) (t : host.State). IsFree addr t) (clear_address host net addr s)
  unfolding clear_address
  clear_address-IsFree addr s =
      let (e, k) = files.looks addr s in
      let t = (host.is_not_exist addr s).1 in
      bind-Ends (λ (_ : Unit {0}) (u : host.State). exists u addr ≡ true)
        (λ (_ : Unit {0}) (u : host.State). IsFree addr u)
        (make_if host net (host.is_not_exist addr s).0 addr)
        (λ _.
          (λ (u : host.State). (ok (net.remove addr u).0, (net.remove addr u).1)) >>= λ r. gone r)
        t (made addr (host.is_not_exist addr s).0 t (e ∙ ap not (sym (k addr))))
        (λ _ u h.
          cleared addr u (net.remove addr u).0 (net.remove addr u).1 h (files.removes addr u))
