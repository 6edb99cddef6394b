-- ===== src/Driver/CreateVolume/Repeat.antt =====
-- `CreateVolume` called again.
use mathlib.Core.Path.{subst}
use datera_csi.Base.{String, Bool, true, false, refl, Option, none, some, arith, ◌≡◌, ◌∙◌, str_eq}
use datera_csi.Base.Int.{ℤ, eqb_ℤ}
use datera_csi.Base.Dict.{Dict}
use datera_csi.Base.Go.{
  Result, ok, err, panic, status, unknown, invalid_argument, pure, lift, attempt, fail_if, on_error,
  ◌>>=◌, ◌>>◌,
}
use datera_csi.Base.Go.Outcomes.{Ends, bind-Ends, skip-Ends, weaken-Ends, fail_if-Ends}
use datera_csi.Common.Name.{gen_name}
use datera_csi.Common.Chap.{strip}
use datera_csi.Client.Sdk.{Sdk}
use datera_csi.Client.Volume.{Volume, get_volume, set_metadata}
use datera_csi.Client.Policy.{VolOpts}
use datera_csi.Client.Create.{create_volume}
use datera_csi.Driver.Env.{Env, as_code}
use datera_csi.Driver.Params.{parse_vol_params}
use datera_csi.Driver.CreateVolume.{
  CreateVolumeRequest, CapacityRange, VolumeReply, no_source, map_range, mismatch, to_bytes,
  over_limit, over_limit_error, volume_size, create_body, existing, existing_or_new, new_volume,
  content_of, make_volume, with_capabilities, base_metadata, clone_source, override,
  volume_metadata, handle_topology_requirement,
}
use datera_csi.Driver.CreateVolume.Existing.{existing_answer, create_body_existing}

-- Whether a size is the one that was asked for. Without a range every size is.
abbrev pub is_exact : Option CapacityRange → ℤ → Bool
is_exact none size = true
is_exact (some cr) size = eqb_ℤ cr.required size

-- A volume of the size that was asked for fits the request.
abbrev Fits : Option CapacityRange → VolumeReply → Type 0
Fits cr reply = is_exact cr reply.capacity_bytes ≡ true → mismatch cr reply.capacity_bytes ≡ false

fits_limit :
    (cr : Option CapacityRange) (size : ℤ)
    → over_limit cr ≡ false
    → is_exact cr size ≡ true
    → mismatch cr size ≡ false
unfolding over_limit mismatch
fits_limit none size h e = refl
fits_limit (some cr) size h e = ground arith

module _ (sdk : Sdk) (env : Env) where
  abbrev Answers : Option CapacityRange → VolumeReply → sdk.State → Type 0
  Answers cr reply t = Fits cr reply

  existing-Fits :
      (cr : Option CapacityRange) (vol : Volume) (s : sdk.State)
      → Ends (Answers cr) (existing sdk env cr vol s)
  unfolding existing
  existing-Fits cr vol s = ground arith

  make_volume-Fits :
      (id : String) (cr : Option CapacityRange) (o : VolOpts) (md chap : Dict String)
      (s : sdk.State)
      → over_limit cr ≡ false
      → Ends (Answers cr) (make_volume sdk env id cr o md chap s)
  unfolding make_volume
  make_volume-Fits id cr o md chap s h =
      let sized = record o { size = volume_size cr } in
      let made = on_error (as_code env unknown) (create_volume sdk id sized false chap) in
      let store = λ (vol : Volume). attempt (set_metadata sdk env.metadata_debug vol md) in
      let reply : Volume → VolumeReply = λ vol. record {
        capacity_bytes = to_bytes (volume_size cr);
        volume_id = vol.name;
        content = content_of sized;
      } in
      skip-Ends (Answers cr) made (λ vol. store vol >>= λ _. pure (reply vol)) s
        (λ vol t.
          skip-Ends (Answers cr) (store vol) (λ _. pure (reply vol)) t
            (λ _ u. fits_limit cr (to_bytes (volume_size cr)) h))

  -- The rest of the call after the parameters are read.
  cloned-Fits :
      (req : CreateVolumeRequest) (id : String) (cr : Option CapacityRange) (o : VolOpts)
      (md chap : Dict String) (s : sdk.State)
      → Ends (Answers cr) (
          (clone_source sdk env req.snapshot >>= λ src.
          fail_if (over_limit cr) (over_limit_error cr)
          >> make_volume sdk env id cr
              (record (override sdk env o) { clone_snap_src = src })
              md
              chap)
            s)
  cloned-Fits req id cr o md chap s =
      let limit = fail_if (over_limit cr) (over_limit_error cr) in
      let opts : String → VolOpts = λ src. record (override sdk env o) { clone_snap_src = src } in
      let make = λ (src : String). make_volume sdk env id cr (opts src) md chap in
      skip-Ends (Answers cr) (clone_source sdk env req.snapshot) (λ src. limit >> make src) s
        (λ src t.
          bind-Ends (λ _ _. over_limit cr ≡ false) (Answers cr) limit (λ _. make src) t
            (fail_if-Ends (over_limit cr) (over_limit_error cr) t)
            (λ _ u h. make_volume-Fits id cr (opts src) md chap u h))

  new_volume-Fits :
      (req : CreateVolumeRequest) (id : String) (cr : Option CapacityRange) (chap : Dict String)
      (s : sdk.State)
      → Ends (Answers cr) (new_volume sdk env req id cr chap s)
  unfolding new_volume
  new_volume-Fits req id cr chap s =
      let place =
        on_error (as_code env invalid_argument) (lift (handle_topology_requirement req.topology)) in
      let know = with_capabilities sdk env req.capabilities (base_metadata req) in
      let parse =
        on_error (as_code env invalid_argument) (lift (parse_vol_params req.parameters)) in
      let rest = λ (md : Dict String) (o : VolOpts). clone_source sdk env req.snapshot >>= λ src.
      fail_if (over_limit cr) (over_limit_error cr)
      >> make_volume sdk env id cr (record (override sdk env o) { clone_snap_src = src })
          (volume_metadata o md) chap in
      skip-Ends (Answers cr) place (λ _. know >>= λ md. parse >>= rest md) s
        (λ _ t.
          skip-Ends (Answers cr) know (λ md. parse >>= rest md) t
            (λ md u.
              skip-Ends (Answers cr) parse (rest md) u
                (λ o v. cloned-Fits req id cr o (volume_metadata o md) chap v)))

  existing_or_new-Fits :
      (req : CreateVolumeRequest) (id : String) (r : Result Volume) (s : sdk.State)
      → Ends (Answers (map_range req.capacity)) (existing_or_new sdk env req id r s)
  unfolding existing_or_new
  existing_or_new-Fits req id (ok vol) s = existing-Fits (map_range req.capacity) vol s
  existing_or_new-Fits req id (err e) s =
      new_volume-Fits req id (map_range req.capacity) (strip req.secrets).1 s
  existing_or_new-Fits req id panic s =
      new_volume-Fits req id (map_range req.capacity) (strip req.secrets).1 s

  -- What an answer says of the request.
  abbrev IsNamed : CreateVolumeRequest → VolumeReply → sdk.State → Type 0
  IsNamed req reply t = (str_eq req.name "" ≡ false) × Fits (map_range req.capacity) reply

  create_body-Fits :
      (req : CreateVolumeRequest) (s : sdk.State) → Ends (IsNamed req) (create_body sdk env req s)
  unfolding create_body
  create_body-Fits req s =
      let no_name = status invalid_argument "Name must be provided (currently empty string)" in
      let named = fail_if (str_eq req.name "") no_name in
      let gen = lift (gen_name env.rune_cap env.fresh_id req.name) in
      let find = λ (id : String). attempt (get_volume sdk id false false) in
      let last = existing_or_new sdk env req in
      bind-Ends (λ _ _. str_eq req.name "" ≡ false) (IsNamed req) named
        (λ _. gen >>= λ id. find id >>= last id) s (fail_if-Ends (str_eq req.name "") no_name s)
        (λ _ t h.
          skip-Ends (IsNamed req) gen (λ id. find id >>= last id) t
            (λ id u. skip-Ends (IsNamed req) (find id) (last id) u (λ r v.
              weaken-Ends (Answers (map_range req.capacity)) (IsNamed req) (last id r v)
                (λ _ _ f. (h, f)) (existing_or_new-Fits req id r v))))

  -- If a call of CreateVolume was answered by a volume of exactly the bytes that the request requires,
  -- or it asked for no size, and the backend now gives a volume of that many bytes for the name's id,
  -- the same call made again is answered by that volume, with the same size, and makes no call on the
  -- backend but the one that gets the volume.
  pub create_body_again :
      (req : CreateVolumeRequest) (reply : VolumeReply) (id : String) (vol : Volume)
      (s t u : sdk.State)
      → create_body sdk env req s ≡ (ok reply, t)
      → is_exact (map_range req.capacity) reply.capacity_bytes ≡ true
      → gen_name env.rune_cap env.fresh_id req.name ≡ ok id
      → get_volume sdk id false false t ≡ (ok vol, u)
      → to_bytes vol.size ≡ reply.capacity_bytes
      → create_body sdk env req t ≡ (
        ok (record {
          capacity_bytes = reply.capacity_bytes;
          volume_id = vol.name;
          content = no_source;
        }),
        u,
      )
  unfolding existing_answer
  create_body_again req reply id vol s t u first exact named found size =
      let (h, fits) = subst (λ p. Ends (IsNamed req) p) first (create_body-Fits req s) in
      create_body_existing sdk env req id vol t u h named found ∙ rw (size, fits exact)
