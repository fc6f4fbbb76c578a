-- ===== src/Json.antt =====
-- JSON values, and the digests of src/skills_sdk/core/digests.py. SHA-256 and the text that
-- `json.dumps` gives for a value are a parameter, `Hash`. A float stands as the bits of its double.
use skills_sdk.Prelude.{ℕ, Bool, String, List, [], ◌∷◌, ◌++◌, Option, none, some, codes, utf8}

mutual
  pub data Json : Type 0 where
    null : Json
    boolean : Bool → Json
    number : ℕ → Json
    double : ℕ → Json
    text : String → Json
    arr : Items → Json
    obj : Members → Json

  pub data Items : Type 0 where
    nil : Items
    cons : Json → Items → Items

  pub data Members : Type 0 where
    end : Members
    member : String → Json → Members → Members

abbrev pub items : List Json → Items
items [] = nil
items (v ∷ vs) = cons v (items vs)

abbrev pub members : List (String × Json) → Members
members [] = end
members ((k, v) ∷ kvs) = member k v (members kvs)

abbrev pub array : List Json → Json
array vs = arr (items vs)

abbrev pub object : List (String × Json) → Json
object kvs = obj (members kvs)

abbrev pub texts : List String → List Json
texts [] = []
texts (t ∷ ts) = text t ∷ texts ts

abbrev pub optional {ℓ} : {A : Type ℓ} → (A → Json) → Option A → Json
optional f none = null
optional f (some a) = f a

-- `hashlib.sha256(…).hexdigest()`, and `json.dumps` with the program's options, encoded.
pub record Hash : Type 0 where
  pub sha256 : List ℕ → String
  pub dumps : Json → List ℕ

abbrev pub canonical_json_sha256 : Hash → Json → String
canonical_json_sha256 h value = h.sha256 (h.dumps value)

-- What `candidate_content_sha256` feeds to the digest: path and blob digest, each closed by a NUL.
unfoldable pub content_bytes : List (String × String) → List ℕ
unfolding utf8
content_bytes [] = []
content_bytes ((path, sha) ∷ files) =
    utf8 (codes path) ++ 0 ∷ (codes sha ++ 0 ∷ content_bytes files)
