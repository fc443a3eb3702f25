-- ===== src/Policy/Canonical.antt =====
-- apps/api/src/policy-enforcement.mjs: canonicalize. The canonical text is the list of its parts: what
-- the function writes itself, and what JSON.stringify prints of a text, a number, a boolean or null.
use tenant_trust.Common.{
  String, List, [], ◌∷◌, ◌++◌, Result, ok, err, ◌>>=◌, if◌then◌else◌, codes_lt, codes,
}
use tenant_trust.Js.{
  Value, undefined, null, boolean, number, string, array, object, Items, nil, cons, Fields, end,
  field, finite,
}

pub data Part : Type 0 where
  written : String → Part
  printed : Value → Part

-- The members of an object: each key with the parts of its value, in the order of the keys by code
-- points.
abbrev pub Members : Type 0
Members = List (String × List Part)

unfoldable pub insert_member : String × List Part → Members → Members
insert_member m [] = m ∷ []
insert_member m (n ∷ ns) =
    let rest = insert_member m ns in
    if codes_lt (codes n.0) (codes m.0) then n ∷ rest else m ∷ n ∷ ns

-- The parts of an array and of an object, with commas between the elements.
unfoldable pub join : List (List Part) → List Part
join [] = []
join (x ∷ []) = x
join (x ∷ y ∷ ys) = x ++ written "," ∷ join (y ∷ ys)

abbrev pub member_parts : Members → List (List Part)
member_parts [] = []
member_parts ((k, parts) ∷ ms) = (printed (string k) ∷ written ":" ∷ parts) ∷ member_parts ms

unfoldable mutual
  pub canonicalize : Value → Result (List Part)
  canonicalize undefined = err "POLICY_INPUT_INVALID"
  canonicalize null = ok (printed null ∷ [])
  canonicalize (boolean b) = ok (printed (boolean b) ∷ [])
  canonicalize (number (finite n)) = ok (printed (number (finite n)) ∷ [])
  canonicalize (number _) = err "POLICY_INPUT_INVALID"
  canonicalize (string s) = ok (printed (string s) ∷ [])
  canonicalize (array xs) =
      canonical_items xs >>= λ parts. ok (written "[" ∷ join parts ++ written "]" ∷ [])
  canonicalize (object _ fs) =
      canonical_fields fs >>= λ ms. ok (written "{" ∷ join (member_parts ms) ++ written "}" ∷ [])

  pub canonical_items : Items → Result (List (List Part))
  canonical_items nil = ok []
  canonical_items (cons v vs) =
      canonicalize v >>= λ parts. canonical_items vs >>= λ rest. ok (parts ∷ rest)

  pub canonical_fields : Fields → Result Members
  canonical_fields end = ok []
  canonical_fields (field k v fs) =
      canonicalize v >>= λ parts. canonical_fields fs >>= λ rest. ok (insert_member (k, parts) rest)
