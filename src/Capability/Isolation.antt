-- ===== src/Capability/Isolation.antt =====
-- Whose manifest an agent gets, and what the keys of manifests tell apart.
use Prim.Native.Char.{Char, code}
use Prim.Native.String
use Prim.Native.String.append.{nil, cons}
use constrails.Prelude.{
  not, ◌&&◌, nat_eq, Bool, ap, sym, ◌∙◌, or_default, concat, String, Option, none, some, List, [],
  ◌∷◌, true, ◌≡◌, ◌⊎◌, inl, inr, refl, ◌==◌, lookup, insert, find, find-some, arith, eq_iff,
  opt_eq_iff, Option-cases, Bool-cases,
}
use constrails.Models.{AgentIdentity}
use constrails.Capability.{
  CapabilityManifest, ManifestFields, Manifests, key_of, manifest_key, suits, value, parse_manifest,
  load_manifests, find_manifest,
}

-- Every manifest stands under its own key.
abbrev IsKeyed : Manifests → Type 0
IsKeyed [] = Unit
IsKeyed ((k, m) ∷ ms) = (key_of m ≡ k) × IsKeyed ms

insert-IsKeyed :
    (m : CapabilityManifest) (ms : Manifests) → IsKeyed ms → IsKeyed (insert (key_of m) m ms)
unfolding insert
insert-IsKeyed m [] h = (refl, tt)
insert-IsKeyed m ((k, n) ∷ ms) h = elim (Bool-cases (k == key_of m)) [
  | inl same ↦ rw same (refl, h.1)
  | inr other ↦ rw other (h.0, insert-IsKeyed m ms h.1)
]

load_manifests-IsKeyed :
    (ms : Manifests) (files : List (Option ManifestFields))
    → IsKeyed ms
    → IsKeyed (load_manifests ms files)
unfolding load_manifests
load_manifests-IsKeyed ms [] h = h
load_manifests-IsKeyed ms (none ∷ files) h = load_manifests-IsKeyed ms files h
load_manifests-IsKeyed ms (some f ∷ files) h =
    let m = parse_manifest f in
    load_manifests-IsKeyed (insert (key_of m) m ms) files (insert-IsKeyed m ms h)

key_of-lookup :
    (k : String) (ms : Manifests) (m : CapabilityManifest)
    → IsKeyed ms
    → lookup k ms ≡ some m
    → key_of m ≡ k
unfolding lookup
key_of-lookup k [] m h e = ground arith
key_of-lookup k ((j, n) ∷ ms) m h e = elim (Bool-cases (j == k)) [
  | inl same ↦ ground (arith, eq_iff j k)
  | inr other ↦ key_of-lookup k ms m h.1 (ground arith)
]

-- No character of the text is a colon.
unfoldable pub no_colon : String → Bool
no_colon String.[] = true
no_colon (String.◌∷◌ c s) = not (nat_eq (code c) b':') && no_colon s

abbrev head_char : Char → String → Char
head_char d String.[] = d
head_char d (String.◌∷◌ c s) = c

abbrev behind : String → String
behind String.[] = String.[]
behind (String.◌∷◌ c s) = s

append-nil : (s : String) → String.◌++◌ s "" ≡ s
append-nil String.[] = nil ""
append-nil (String.◌∷◌ c s) = cons c s "" ∙ ap (String.◌∷◌ c) (append-nil s)

colons : (r : String) → String.◌++◌ "::" r ≡ String.◌∷◌ ":" (String.◌∷◌ ":" r)
colons r = cons ":" ":" r ∙ ap (String.◌∷◌ ":") (cons ":" "" r ∙ ap (String.◌∷◌ ":") (nil r))

-- What stands before the first colon, and what behind it, is determined by the whole.
split_at_colon :
    (s t r r' : String)
    → no_colon s ≡ true
    → no_colon t ≡ true
    → String.◌++◌ s (String.◌++◌ "::" r) ≡ String.◌++◌ t (String.◌++◌ "::" r')
    → (s ≡ t) × (r ≡ r')
unfolding no_colon
split_at_colon String.[] String.[] r r' p q e =
    let e' = sym (nil _ ∙ colons r) ∙ e ∙ nil _ ∙ colons r' in
    (refl, ap (λ x. behind (behind x)) e')
split_at_colon String.[] (String.◌∷◌ c t) r r' p q e =
    let e' = sym (nil _ ∙ colons r) ∙ e ∙ cons c t _ in
    absurd (ground (arith, q, ap (λ x. code (head_char c x)) e'))
split_at_colon (String.◌∷◌ c s) String.[] r r' p q e =
    let e' = sym (cons c s _) ∙ e ∙ nil _ ∙ colons r' in
    absurd (ground (arith, p, ap (λ x. code (head_char c x)) e'))
split_at_colon (String.◌∷◌ c s) (String.◌∷◌ d t) r r' p q e =
    let e' = sym (cons c s _) ∙ e ∙ cons d t _ in
    let (same, rest) =
      split_at_colon s t r r' (ground (arith, p)) (ground (arith, q)) (ap behind e') in
    (ap (λ x. String.◌∷◌ x s) (ap (head_char c) e') ∙ ap (String.◌∷◌ d) same, rest)

-- The text that stands for a tenant or a namespace in a key.
abbrev pub part : Option String → String
part o = or_default o "_"

-- The texts that an agent, or a manifest, puts before its name in a key have no colon.
abbrev pub Plain : Option String → Option String → Type 0
Plain tenant_id namespace = (no_colon (part tenant_id) ≡ true) × (no_colon (part namespace) ≡ true)

same_key :
    (a a' : String) (t t' n n' : Option String)
    → Plain t n
    → Plain t' n'
    → manifest_key a t n ≡ manifest_key a' t' n'
    → (a ≡ a') × (part t ≡ part t') × (part n ≡ part n')
unfolding manifest_key concat
same_key a a' t t' n n' p p' e =
    let (tenant, rest) = split_at_colon (part t) (part t') _ _ p.0 p'.0 e in
    let (namespace, agent) = split_at_colon (part n) (part n') _ _ p.1 p'.1 rest in
    (sym (append-nil a) ∙ agent ∙ append-nil a', tenant, namespace)

-- Why a manifest may serve an agent: it is a manifest of the agent's name, and its tenant is, as a text of a
-- key, the agent's or that of none; or the agent names no tenant.
pub record IsFor (agent : AgentIdentity) (m : CapabilityManifest) : Type 0 where
  pub same_agent : m.agent_id ≡ agent.agent_id
  pub tenant :
      (part m.tenant_id ≡ part agent.tenant_id)
      ⊎ (part m.tenant_id ≡ "_")
      ⊎ (agent.tenant_id ≡ none)

suits-IsFor :
    (agent : AgentIdentity) (k : String) (m : CapabilityManifest)
    → suits agent (k, m) ≡ true
    → IsFor agent m
suits-IsFor agent k m h =
    let same = eq_iff m.agent_id agent.agent_id in
    let choice : (agent.tenant_id ≡ none) ⊎ (m.tenant_id ≡ none) ⊎ (m.tenant_id ≡ agent.tenant_id) =
      ground (arith, opt_eq_iff m.tenant_id none, opt_eq_iff m.tenant_id agent.tenant_id) in
    record {
      same_agent = ground (arith, same);
      tenant = elim choice [
        | inl none_named ↦ inr (inr none_named)
        | inr (inl general) ↦ inr (inl (ap part general))
        | inr (inr own) ↦ inl (ap part own)
      ];
    }

value-IsFor :
    (agent : AgentIdentity) (ms : Manifests) (m : CapabilityManifest)
    → value (find (suits agent) ms) ≡ some m
    → (k : String) × (suits agent (k, m) ≡ true)
value-IsFor agent ms m h = elim (Option-cases (find (suits agent) ms)) [
  | inl missing ↦ absurd (ground arith)
  | inr ((k, n), e) ↦ (k, ground (arith, find-some (suits agent) ms e))
]

key-IsFor :
    (agent : AgentIdentity) (m : CapabilityManifest) (tenant_id namespace : Option String)
    → Plain m.tenant_id m.namespace
    → Plain tenant_id namespace
    → (part tenant_id ≡ part agent.tenant_id) ⊎ (part tenant_id ≡ "_")
    → key_of m ≡ manifest_key agent.agent_id tenant_id namespace
    → IsFor agent m
key-IsFor agent m tenant_id namespace p q choice e =
    let (same, tenant, _) =
      same_key m.agent_id agent.agent_id m.tenant_id tenant_id m.namespace namespace p q e in
    record {
      same_agent = same;
      tenant = elim choice [
        | inl own ↦ inl (tenant ∙ own)
        | inr general ↦ inr (inl (tenant ∙ general))
      ];
    }

underscore : no_colon "_" ≡ true
unfolding no_colon
underscore = refl

-- Where neither the agent's tenant and namespace nor those of the manifest that it gets have a colon, the
-- manifest, of those that were loaded from files, is one of the agent's own name; and its tenant is the
-- agent's, or it has none, where "" and "_" count as none, or the agent names no tenant.
pub find_manifest-IsFor :
    (files : List (Option ManifestFields)) (agent : AgentIdentity) (m : CapabilityManifest)
    → Plain agent.tenant_id agent.namespace
    → Plain m.tenant_id m.namespace
    → find_manifest (load_manifests [] files) agent ≡ some m
    → IsFor agent m
unfolding find_manifest
find_manifest-IsFor files agent m q p h =
    let ms = load_manifests [] files in
    let keyed = load_manifests-IsKeyed [] files tt in
    let k1 = manifest_key agent.agent_id agent.tenant_id agent.namespace in
    let k2 = manifest_key agent.agent_id agent.tenant_id none in
    let k3 = manifest_key agent.agent_id none none in
    elim (Option-cases (lookup k1 ms)) [
      | inr (a, e1) ↦
          key-IsFor agent m agent.tenant_id agent.namespace p q (inl refl)
            (key_of-lookup k1 ms m keyed (ground arith))
      | inl n1 ↦ elim (Option-cases (lookup k2 ms)) [
        | inr (a, e2) ↦
            key-IsFor agent m agent.tenant_id none p (q.0, underscore) (inl refl)
              (key_of-lookup k2 ms m keyed (ground arith))
        | inl n2 ↦ elim (Option-cases (lookup k3 ms)) [
          | inr (a, e3) ↦
              key-IsFor agent m none none p (underscore, underscore) (inr refl)
                (key_of-lookup k3 ms m keyed (ground arith))
          | inl n3 ↦ let (k, s) = value-IsFor agent ms m (ground arith) in suits-IsFor agent k m s
        ]
      ]
    ]
