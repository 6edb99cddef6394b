-- ===== src/Driver/Node/Publish/Entries.antt =====
-- The entry of the bind mounts in a volume's metadata.
use datera_csi.Base.{String, ◌≡◌, refl, Option, none, some, false, Bool-cases, inl, inr, str_eq}
use datera_csi.Base.Dict.{Dict, get, get-insert_other}
use datera_csi.Driver.Node.Publish.{with_pod, without_pod, record_entry}

get-record_entry :
    (j k v : String) (md : Dict String)
    → str_eq k j ≡ false
    → get j (record_entry k v md) ≡ get j md
get-record_entry j k v md e = elim (Bool-cases (str_eq v "")) [
  | inl h ↦ rw h
  | inr h ↦ rw h (get-insert_other j k v md e)
]

pub get-with_pod :
    (context : Option (Dict String)) (md : Dict String)
    → get "bind_mount" (with_pod context md) ≡ get "bind_mount" md
unfolding with_pod
get-with_pod none md = refl
get-with_pod (some c) md = rw (
  get-record_entry "bind_mount" "k8s_service_account",
  get-record_entry "bind_mount" "pod_uid",
  get-record_entry "bind_mount" "pod_namespace",
  get-record_entry "bind_mount" "pod_name",
)

pub get-without_pod : (md : Dict String) → get "bind_mount" (without_pod md) ≡ get "bind_mount" md
unfolding without_pod
get-without_pod md = rw (
  get-insert_other "bind_mount" "k8s_service_account",
  get-insert_other "bind_mount" "pod_uid",
  get-insert_other "bind_mount" "pod_namespace",
  get-insert_other "bind_mount" "pod_name",
)
