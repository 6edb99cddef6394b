-- ===== src/Driver/Node/Stage/Prepared.antt =====
-- What `NodeStageVolume` makes of the metadata when the volume is logged in.
use datera_csi.Base.{
  String, ◌≡◌, ◌∙◌, refl, sym, Bool, true, false, not, ◌&&◌, List, str_eq, eq_iff, if◌then◌else◌,
}
use datera_csi.Base.Dict.{Dict, insert, get, get-insert_other, get-insert_same}
use datera_csi.Base.Text.{split}
use datera_csi.Base.Go.Outcomes.{Ends, bind-Ends, skip-Ends, on_error-Ends}
use datera_csi.Base.Go.{unknown, Action, pure, on_error, ◌>>=◌}
use datera_csi.Client.Sdk.{Sdk}
use datera_csi.Client.Volume.{Volume}
use datera_csi.Client.Host.{Host, local}
use datera_csi.Client.Format.{format_volume}
use datera_csi.Client.Mount.{mount_volume}
use datera_csi.Client.Mount.Targets.{mount_volume-Ends}
use datera_csi.Driver.Env.{Env, as_code}
use datera_csi.Driver.Capability.{Access, mount, block, unset}
use datera_csi.Driver.Node.Stage.{prepare, format_new, stage_fs_type, stage_fs_args}
use datera_csi.Driver.Node.Stage.Steps.{local-Ends}

-- The entries of a staged volume: a mounted one has the staging path and counts as formatted, a block
-- device has its own path.
unfoldable pub Describes : Access → String → Dict String → Type 0
Describes (mount _ _) path md = (get "mount_path" md ≡ path) × (get "formatted" md ≡ "true")
Describes block path md = get "mount_path" md ≡ get "device_path" md
Describes unset path md = ⊥

-- `if !b && !c {x } else {y }`, where b is false.
unless-Ends :
    {S A : Type 0} (Q : A → S → Type 0) (b c : Bool) (x y : Action S A) (s : S)
    → b ≡ false
    → (c ≡ true → Ends Q (y s))
    → (c ≡ false → Ends Q (x s))
    → Ends Q ((if not b && not c then x else y) s)
unless-Ends Q false true x y s e h k = h refl
unless-Ends Q false false x y s e h k = k refl
unless-Ends Q true c x y s e h k = cc e

module _ (sdk : Sdk) (host : Host) (env : Env) where
  abbrev Site : Type 0
  Site = sdk.State × host.State

  -- The metadata counts as formatted and has the device path of the earlier one.
  abbrev IsFormatted : Dict String → Volume × Dict String → Type 0
  IsFormatted md p = (get "formatted" p.1 ≡ "true") × (get "device_path" p.1 ≡ get "device_path" md)

  format_new-Ends :
      (vol : Volume) (md : Dict String) (s : Site)
      → vol.formatted ≡ false
      → Ends (λ p (_ : Site). IsFormatted md p) (format_new sdk host env vol md s)
  unfolding format_new
  format_new-Ends vol md s e =
      let Q = λ (p : Volume × Dict String) (_ : Site). IsFormatted md p in
      let m =
        format_volume host vol (stage_fs_type md) (stage_fs_args md (stage_fs_type md))
          env.format_timeout in
      let new = on_error (as_code env unknown) (local sdk host m) in
      let marked = λ (v : Volume).
        pure {S = Site} (record v { formatted = true }, insert "formatted" "true" md) in
      unless-Ends Q vol.formatted (str_eq (get "formatted" md) "true") (new >>= marked)
        (pure (vol, md)) s e (λ y. ((eq_iff (get "formatted" md) "true").0 y, refl))
        (λ _. skip-Ends Q new marked s (λ v t. (
          get-insert_same "formatted" "true" md,
          get-insert_other "device_path" "formatted" "true" md refl,
        )))

  -- The metadata describes the volume, with the device path that the volume has.
  abbrev pub IsReady : Access → String → Volume → Dict String → Type 0
  IsReady access path vol md = Describes access path md × (get "device_path" md ≡ vol.device_path)

  mounted-Ends :
      (fs : String) (flags : List String) (path : String) (vol : Volume) (p : Volume × Dict String)
      (s : Site)
      → get "formatted" p.1 ≡ "true"
      → get "device_path" p.1 ≡ vol.device_path
      → Ends
          (λ md (_ : Site). IsReady (mount fs flags) path vol md)
          ((on_error (as_code env unknown) (
                local sdk host
                  (mount_volume host p.0 path (split b' ' (get "m_args" p.1)) (stage_fs_type p.1)))
              >>= λ v. pure (insert "mount_path" v.mount_path p.1))
            s)
  unfolding Describes
  mounted-Ends fs flags path vol (v, md) s e f =
      let m = mount_volume host v path (split b' ' (get "m_args" md)) (stage_fs_type md) in
      bind-Ends (λ (w : Volume) (_ : Site). w.mount_path ≡ path)
        (λ md (_ : Site). IsReady (mount fs flags) path vol md)
        (on_error (as_code env unknown) (local sdk host m))
        (λ w. pure (insert "mount_path" w.mount_path md)) s
        (on_error-Ends (λ (w : Volume) (_ : Site). w.mount_path ≡ path) (as_code env unknown)
          (local sdk host m) s
          (local-Ends sdk host (λ (w : Volume). w.mount_path ≡ path) m s
            (mount_volume-Ends host v path (split b' ' (get "m_args" md)) (stage_fs_type md) s.1)))
        (λ w t h. (
          (
            get-insert_same "mount_path" w.mount_path md ∙ h,
            get-insert_other "formatted" "mount_path" w.mount_path md refl ∙ e,
          ),
          get-insert_other "device_path" "mount_path" w.mount_path md refl ∙ f,
        ))

  -- What preparing a volume that does not count as formatted makes of the metadata.
  pub prepare-Ends :
      (access : Access) (path : String) (vol : Volume) (md : Dict String) (s : Site)
      → vol.formatted ≡ false
      → get "device_path" md ≡ vol.device_path
      → Ends
          (λ new (_ : Site). IsReady access path vol new)
          (prepare sdk host env access path vol md s)
  unfolding prepare Describes
  prepare-Ends (mount fs flags) path vol md s e f =
      bind-Ends (λ p (_ : Site). IsFormatted md p)
        (λ new (_ : Site). IsReady (mount fs flags) path vol new) (format_new sdk host env vol md)
        (λ p.
          on_error (as_code env unknown) (
            local sdk host
              (mount_volume host p.0 path (split b' ' (get "m_args" p.1)) (stage_fs_type p.1)))
          >>= λ v. pure (insert "mount_path" v.mount_path p.1))
        s (format_new-Ends vol md s e) (λ p t h. mounted-Ends fs flags path vol p t h.0 (h.1 ∙ f))
  prepare-Ends block path vol md s e f = (
    get-insert_same "mount_path" vol.device_path md
        ∙ sym f
        ∙ sym (get-insert_other "device_path" "mount_path" vol.device_path md refl),
    get-insert_other "device_path" "mount_path" vol.device_path md refl ∙ f,
  )
  prepare-Ends unset path vol md s e f = tt
