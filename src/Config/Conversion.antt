-- ===== src/Config/Conversion.antt =====
-- pkg/apis/config/v1beta1/zz_generated.conversion.go: the conversions between the two forms.
pub mod RoundTrip
use super_scheduling.Prelude.{
  Option, none, some, [], ◌∷◌, String, Map, insert, Result, ok, err, string_eq, if◌then◌else◌, ◌==◌,
}
use super_scheduling.Config.Internal
use super_scheduling.Config.V1beta1

-- Convert_Pointer_string_To_string and Convert_string_To_Pointer_string of Kubernetes' meta/v1.
pub record StringConversions : Type 0 where
  pub to_string : Option String → Result String
  pub to_pointer : String → Result (Option String)

-- A function that may fail, after another.
abbrev pub then_ok {κ ℓ} : {S : Type κ} {T : Type ℓ} → Result S → (S → Result T) → Result T
then_ok (err e) next = err e
then_ok (ok value) next = next value

-- The loop that both conversions of the arguments have over the clusters; `converted` is the map
-- built so far.
unfoldable pub convert_entries :
    {A B : Type 0} → (A → Result B) → Map String A → Map String B → Result (Map String B)
convert_entries convert [] converted = ok converted
convert_entries convert ((key, val) ∷ entries) converted = elim (convert val) [
  | err e ↦ err e
  | ok new_val ↦ convert_entries convert entries (insert key new_val converted)
]

-- A nil map stays nil.
unfoldable pub convert_clusters :
    {A B : Type 0} → (A → Result B) → Option (Map String A) → Result (Option (Map String B))
unfolding convert_entries
convert_clusters convert none = ok none
convert_clusters convert (some clusters) =
    then_ok (convert_entries convert clusters []) λ converted. ok (some converted)

module _ (conv : StringConversions) where
  unfoldable pub convert_v1beta1_configuration :
      V1beta1.Configuration → Result Internal.Configuration
  convert_v1beta1_configuration c = then_ok (conv.to_string c.name) λ name.
      then_ok (conv.to_string c.kube_master) λ kube_master.
        then_ok (conv.to_string c.kube_config) λ kube_config.
          ok (record { name = name; kube_master = kube_master; kube_config = kube_config })

  unfoldable pub convert_config_configuration :
      Internal.Configuration → Result V1beta1.Configuration
  convert_config_configuration c = then_ok (conv.to_pointer c.name) λ name.
      then_ok (conv.to_pointer c.kube_master) λ kube_master.
        then_ok (conv.to_pointer c.kube_config) λ kube_config.
          ok (record { name = name; kube_master = kube_master; kube_config = kube_config })

  unfoldable pub convert_v1beta1_scheduling_args :
      V1beta1.SchedulingArgs → Result Internal.SchedulingArgs
  unfolding convert_clusters convert_v1beta1_configuration
  convert_v1beta1_scheduling_args args =
      then_ok (conv.to_string args.kube_config_path) λ kube_config_path.
        then_ok (conv.to_string args.kube_master) λ kube_master.
          then_ok (convert_clusters convert_v1beta1_configuration args.cluster_configuration)
            λ clusters. ok (record {
              kube_config_path = kube_config_path;
              kube_master = kube_master;
              cluster_configuration = clusters;
            })

  unfoldable pub convert_config_scheduling_args :
      Internal.SchedulingArgs → Result V1beta1.SchedulingArgs
  unfolding convert_clusters convert_config_configuration
  convert_config_scheduling_args args =
      then_ok (conv.to_pointer args.kube_config_path) λ kube_config_path.
        then_ok (conv.to_pointer args.kube_master) λ kube_master.
          then_ok (convert_clusters convert_config_configuration args.cluster_configuration)
            λ clusters. ok (record {
              kube_config_path = kube_config_path;
              kube_master = kube_master;
              cluster_configuration = clusters;
            })
