-- ===== src/Client/Acl.antt =====
-- pkg/client/acl.go: the initiators that may reach a volume.
pub mod Laws
use datera_csi.Base.{
  String, ◌<>◌, Bool, true, false, not, Option, none, some, List, [], ◌∷◌, ◌++◌, str_eq,
  if◌then◌else◌,
}
use datera_csi.Base.Text.{split, trim_space}
use datera_csi.Base.Go.{
  Error, Result, ok, err, panic, Action, pure, throw, crash, lift, deref, ◌>>=◌, ◌>>◌,
}
use datera_csi.Common.Errors.{Reply, err_translator}
use datera_csi.Client.Sdk.{BackendInitiator, Sdk, call, checked}
use datera_csi.Client.Volume.{Volume, first_instance}

pub record Initiator : Type 0 where
  pub name : String
  pub path : String
  pub iqn : String

-- `&dsdk.Initiator{Path: path}`
abbrev pub by_path : String → BackendInitiator
by_path path = record { name = ""; path = path; id = ""; tenant = "" }

-- `for _, initiator := range acl.Initiators { if initiator.Tenant == "" { ... } }`
unfoldable pub without_tenant : List BackendInitiator → List BackendInitiator
without_tenant [] = []
without_tenant (i ∷ is) =
    let rest = without_tenant is in if str_eq i.tenant "" then i ∷ rest else rest

-- The list that `RegisterAcl` writes.
unfoldable pub registered : Initiator → List BackendInitiator → List BackendInitiator
unfolding without_tenant
registered c inits = without_tenant (inits ++ by_path c.path ∷ [])

-- The list that `UnregisterAcl` writes: for each other initiator it holds the path of `cinit`.
unfoldable pub unregistered : Initiator → List BackendInitiator → List BackendInitiator
unregistered c [] = []
unregistered c (i ∷ is) =
    let rest = unregistered c is in if str_eq i.path c.path then rest else by_path c.path ∷ rest

-- `strings.Split(strings.TrimSpace(string(dat)), "=")[1]`
second : List String → Result String
second (_ ∷ iqn ∷ _) = ok iqn
second _ = panic

unfoldable pub client_iqn : Result String → Result String
unfolding second
client_iqn (ok dat) = second (split b'=' (trim_space dat))
client_iqn (err e) = err e
client_iqn panic = panic

module _ (sdk : Sdk) where
  -- What `CreateGetInitiator` returns. `(*Initiator, nil)` with a nil pointer is `ok none`.
  client_initiator : Option BackendInitiator → Action sdk.State (Option Initiator)
  client_initiator answered = do
    i ← deref answered
    pure (some (record { name = i.name; path = i.path; iqn = i.id }))

  create_initiator : String → String → Action sdk.State (Option Initiator)
  unfolding client_initiator
  create_initiator name iqn = do made ← call (sdk.create_initiator name iqn); client_initiator made

  after_get : Result String → String → Reply BackendInitiator → Action sdk.State (Option Initiator)
  unfolding create_initiator
  after_get name iqn reply = elim reply.api_error [
    | none ↦ client_initiator reply.value
    | some a ↦
        if not (str_eq a.name "NotFoundError")
        then elim reply.failure [ none ↦ pure none | some e ↦ throw e ]
        else (do fresh ← lift name; create_initiator fresh iqn)
  ]

  -- `(*DateraClient).CreateGetInitiator`. `file` is what reading the initiator file gives, `name` what
  -- `GenName` gives, which counts only for an initiator that is missing.
  unfoldable pub create_get_initiator :
      Result String → Result String → Action sdk.State (Option Initiator)
  unfolding after_get
  create_get_initiator file name = do
    iqn ← lift (client_iqn file)
    reply ← (λ s. let (r, t) = sdk.get_initiator iqn s in (ok r, t))
    after_get name iqn reply

  -- `(*Initiator).Delete`: a quiet one only logs what went wrong. `init` is the answer that the
  -- initiator came with.
  unfoldable pub delete_initiator :
      BackendInitiator → Initiator → Bool → Action sdk.State (Unit {0})
  delete_initiator init c quiet s =
      let (reply, t) = sdk.delete_initiator init c.iqn s in
      if quiet
      then (ok tt, t)
      else elim (checked reply) [ ok _ ↦ (ok tt, t) | err e ↦ (err e, t) | panic ↦ (panic, t) ]

  -- `RegisterAcl` and `UnregisterAcl` read the name of the initiator first, which panics for nil.
  unfoldable pub update_acl :
      (Initiator → List BackendInitiator → List BackendInitiator)
      → Volume
      → Option Initiator
      → Action sdk.State (Unit {0})
  update_acl change vol cinit = do
    c ← deref cinit
    si ← lift (first_instance vol.ai)
    acl ← call (sdk.get_acl si)
    inits ← deref acl
    call (sdk.set_acl si (change c inits))
    pure tt

  unfoldable pub register_acl : Volume → Option Initiator → Action sdk.State (Unit {0})
  unfolding update_acl
  register_acl = update_acl registered

  unfoldable pub unregister_acl : Volume → Option Initiator → Action sdk.State (Unit {0})
  unfolding update_acl
  unregister_acl = update_acl unregistered
