-- ===== src/Driver/Guard.antt =====
-- `InitFunc` of pkg/driver/driver.go: a call is refused while one with the same name and arguments is
-- in progress. The map has no lock: between its test of the map and its entry a call may be overtaken by
-- another one, which Exclusion takes up. Each of the three accesses is taken to be atomic.
pub mod Exclusion
pub mod Keys
use datera_csi.Base.{String, Bool, true, false, List, [], ◌∷◌, ◌||◌, str_eq, if◌then◌else◌}
use datera_csi.Base.Text.{join}
use datera_csi.Base.Go.{Result, err, status, aborted, Action}

-- `strings.Join([]string{piece, funcName, fmt.Sprintf("%+v", req)}, "|")`; the last is given as text.
unfoldable pub request_key : String → String → String → String
unfolding join
request_key piece name shown = join "|" (piece ∷ name ∷ shown ∷ [])

-- `_, ok := d.rpcStatus[key]`
unfoldable pub in_progress : String → List String → Bool
in_progress key [] = false
in_progress key (k ∷ ks) = let rest = in_progress key ks in str_eq k key || rest

-- `delete(d.rpcStatus, key)`
unfoldable pub clean : String → List String → List String
clean key [] = []
clean key (k ∷ ks) = let rest = clean key ks in if str_eq k key then rest else k ∷ rest

-- `d.rpcStatus[key] = struct{}{}`
unfoldable pub enter : String → List String → List String
enter key rpc_status = key ∷ rpc_status

-- Whether the call is refused, and the map afterwards, if no other call comes between.
unfoldable pub init_func : String → List String → Bool × List String
unfolding in_progress enter
init_func key rpc_status =
    if in_progress key rpc_status then (true, rpc_status) else (false, enter key rpc_status)

-- The driver: the calls in progress, and the backend.
pub record World (S : Type 0) : Type 0 where
  pub rpc_status : List String
  pub backend : S

-- `ctxt, ip, clean := d.InitFunc(...); defer clean(); if ip { return Aborted }`, then the body.
unfoldable pub guarded {ℓ} : {S : Type 0} {A : Type ℓ} → String → Action S A → Action (World S) A
unfolding init_func clean
guarded key body w =
    let (busy, started) = init_func key w.rpc_status in
    if busy
    then (err (status aborted "Operation is still in progress"), w)
    else (let (r, s) = body w.backend in
        (r, record { rpc_status = clean key started; backend = s }))
