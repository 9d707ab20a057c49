-- ===== src/Config/Conversion/RoundTrip.antt =====
-- Arguments converted to v1beta1 and back.
use super_scheduling.Prelude.{◌≡◌, Option, none, some, String, Map, lookup, IsMap, ok, string_eq}
use super_scheduling.Config.Internal
use super_scheduling.Config.V1beta1
use super_scheduling.Config.Conversion.{StringConversions}

-- What Kubernetes documents of its two functions: a text becomes a pointer to it, and a pointer
-- becomes the text that it points to, or
-- the empty text if it is nil.
pub record IsExact (conv : StringConversions) : Type 0 where
  pub pointer : (s : String) → conv.to_pointer s ≡ ok (some s)
  pub text : (s : String) → conv.to_string (some s) ≡ ok s
  pub nil : conv.to_string none ≡ ok ""

-- The value of a key, after a function.
abbrev image : {A B : Type 0} → (A → B) → Option A → Option B → Option B
image f none old = old
image f (some a) old = some (f a)

-- The value of a key of a map that may be nil.
abbrev pub cluster : {A : Type 0} → String → Option (Map String A) → Option A
cluster name none = none
cluster name (some clusters) = lookup name clusters

-- A map that is not nil has distinct keys.
abbrev pub IsClusters : {A : Type 0} → Option (Map String A) → Type 0
IsClusters none = Unit
IsClusters (some clusters) = IsMap clusters

abbrev versioned : Internal.Configuration → V1beta1.Configuration
versioned c = record {
  name = some c.name;
  kube_master = some c.kube_master;
  kube_config = some c.kube_config;
}

abbrev text_of : Option String → String
text_of none = ""
text_of (some s) = s

abbrev internal : V1beta1.Configuration → Internal.Configuration
internal c = record {
  name = text_of c.name;
  kube_master = text_of c.kube_master;
  kube_config = text_of c.kube_config;
}
