-- ===== src/Capability/Manager/Laws.antt =====
-- What a positive answer of `is_tool_allowed` means.
use constrails.Prelude.{
  String, true, not, Option, none, some, List, [], ◌≡◌, ◌⊎◌, ◌↔◌, inl, inr, refl, ap, ◌==◌, member,
  find, or_default, arith, Option-cases,
}
use constrails.Models.{Dict, AgentIdentity}
use constrails.Capability.{
  ToolAllowance, CapabilityManifest, Manifests, find_manifest, path_allowed, command_allowed,
}
use constrails.Capability.Manager.Given.{
  Named, all_keys-Named, Named-all_keys, Given, constraint-cases, Given-constraint,
}
use constrails.Capability.Manager.{
  allowed_check, deny_check, domain_allowed, path_check, domain_check, command_check,
  allowance_permits, is_tool_allowed,
}

module _ (hostname : String → Option (Option String)) where
  -- The address has a host, or else "", that is among the domains.
  abbrev pub InDomains : List String → String → Type 0
  InDomains domains url =
      (host : Option String) × (hostname url ≡ some host)
      × (member (or_default host "") domains ≡ true)

  module _ (ms : Manifests) (agent : AgentIdentity) (tool : String) (params : Dict) where
    -- A manifest of the agent, its first allowance for the tool, and every constraint of it met.
    pub record Permits : Type 0 where
      pub manifest : CapabilityManifest
      pub allowance : ToolAllowance
      pub found : find_manifest ms agent ≡ some manifest
      pub first : find (λ a. a.tool_name == tool) manifest.allowances ≡ some allowance
      pub names :
          (ns : List String)
          → allowance.allowed_parameters ≡ some ns
          → Named (λ k. member k ns) params
      pub not_denied :
          (ns : List String)
          → allowance.deny_parameters ≡ some ns
          → Named (λ k. not (member k ns)) params
      pub path :
          (allowance.path_prefixes ≡ [])
          ⊎ Given "path" params (λ s. path_allowed s allowance.path_prefixes ≡ true)
      pub domain :
          (allowance.allowed_domains ≡ [])
          ⊎ Given "url" params (InDomains allowance.allowed_domains)
      pub command :
          (allowance.command_allowlist ≡ [])
          ⊎ Given "command" params (λ s. command_allowed s allowance.command_allowlist ≡ true)

    names_of_check :
        (names : Option (List String))
        → allowed_check names params ≡ true
        → (ns : List String) → names ≡ some ns
        → Named (λ k. member k ns) params
    unfolding allowed_check
    names_of_check none h ns e = absurd (ground arith)
    names_of_check (some ms) h ns e =
        all_keys-Named (λ k. member k ns) params (ground (arith, h, e))

    check_of_names :
        (names : Option (List String))
        → ((ns : List String) → names ≡ some ns → Named (λ k. member k ns) params)
        → allowed_check names params ≡ true
    unfolding allowed_check
    check_of_names none h = refl
    check_of_names (some ns) h = Named-all_keys (λ k. member k ns) params (h ns refl)

    denials_of_check :
        (names : Option (List String))
        → deny_check names params ≡ true
        → (ns : List String) → names ≡ some ns
        → Named (λ k. not (member k ns)) params
    unfolding deny_check
    denials_of_check none h ns e = absurd (ground arith)
    denials_of_check (some ms) h ns e =
        all_keys-Named (λ k. not (member k ns)) params (ground (arith, h, e))

    check_of_denials :
        (names : Option (List String))
        → ((ns : List String) → names ≡ some ns → Named (λ k. not (member k ns)) params)
        → deny_check names params ≡ true
    unfolding deny_check
    check_of_denials none h = refl
    check_of_denials (some ns) h = Named-all_keys (λ k. not (member k ns)) params (h ns refl)

    domain_of_test :
        (domains : List String) (url : String)
        → domain_allowed hostname domains url ≡ some true
        → InDomains domains url
    unfolding domain_allowed
    domain_of_test domains url h = elim (Option-cases (hostname url)) [
      | inl malformed ↦ absurd (ground (arith, h, malformed))
      | inr (host, e) ↦ (host, e, ground (arith, h, e))
    ]

    test_of_domain :
        (domains : List String) (url : String)
        → InDomains domains url
        → domain_allowed hostname domains url ≡ some true
    unfolding domain_allowed
    test_of_domain domains url (host, e, in_list) = ground (arith, e, in_list)

    given_path :
        (a : ToolAllowance)
        → path_check hostname a params ≡ some true
        → (a.path_prefixes ≡ []) ⊎ Given "path" params (λ s. path_allowed s a.path_prefixes ≡ true)
    unfolding path_check
    given_path a h =
        elim (constraint-cases (λ s. some (path_allowed s a.path_prefixes)) a.path_prefixes "path"
          params h) [
            | inl none_listed ↦ inl none_listed
            | inr (s, e, full, t) ↦ inr (s, e, full, ground (arith, t))
          ]

    given_domain :
        (a : ToolAllowance)
        → domain_check hostname a params ≡ some true
        → (a.allowed_domains ≡ []) ⊎ Given "url" params (InDomains a.allowed_domains)
    unfolding domain_check
    given_domain a h =
        elim (constraint-cases (domain_allowed hostname a.allowed_domains) a.allowed_domains "url"
          params h) [
            | inl none_listed ↦ inl none_listed
            | inr (s, e, full, t) ↦ inr (s, e, full, domain_of_test a.allowed_domains s t)
          ]

    given_command :
        (a : ToolAllowance)
        → command_check hostname a params ≡ some true
        → (a.command_allowlist ≡ [])
          ⊎ Given "command" params (λ s. command_allowed s a.command_allowlist ≡ true)
    unfolding command_check
    given_command a h =
        elim (constraint-cases (λ s. some (command_allowed s a.command_allowlist))
          a.command_allowlist "command" params h) [
            | inl none_listed ↦ inl none_listed
            | inr (s, e, full, t) ↦ inr (s, e, full, ground (arith, t))
          ]

    path_given :
        (a : ToolAllowance)
        → (a.path_prefixes ≡ []) ⊎ Given "path" params (λ s. path_allowed s a.path_prefixes ≡ true)
        → path_check hostname a params ≡ some true
    unfolding path_check
    path_given a h =
        Given-constraint (λ s. some (path_allowed s a.path_prefixes)) a.path_prefixes "path" params
          (elim h [
            | inl none_listed ↦ inl none_listed
            | inr (s, e, full, t) ↦ inr (s, e, full, ap some t)
          ])

    domain_given :
        (a : ToolAllowance)
        → (a.allowed_domains ≡ []) ⊎ Given "url" params (InDomains a.allowed_domains)
        → domain_check hostname a params ≡ some true
    unfolding domain_check
    domain_given a h =
        Given-constraint (domain_allowed hostname a.allowed_domains) a.allowed_domains "url" params
          (elim h [
            | inl none_listed ↦ inl none_listed
            | inr (s, e, full, t) ↦ inr (s, e, full, test_of_domain a.allowed_domains s t)
          ])

    command_given :
        (a : ToolAllowance)
        → (a.command_allowlist ≡ [])
          ⊎ Given "command" params (λ s. command_allowed s a.command_allowlist ≡ true)
        → command_check hostname a params ≡ some true
    unfolding command_check
    command_given a h =
        Given-constraint (λ s. some (command_allowed s a.command_allowlist)) a.command_allowlist
          "command" params
          (elim h [
            | inl none_listed ↦ inl none_listed
            | inr (s, e, full, t) ↦ inr (s, e, full, ap some t)
          ])

    permits_of_allowed : is_tool_allowed hostname ms agent tool params ≡ some true → Permits
    unfolding is_tool_allowed allowance_permits
    permits_of_allowed h = elim (Option-cases (find_manifest ms agent)) [
      | inl missing ↦ absurd (ground arith)
      | inr (m, found) ↦ elim (Option-cases (find (λ a. a.tool_name == tool) m.allowances)) [
        | inl missing ↦ absurd (ground arith)
        | inr (a, first) ↦ record {
          manifest = m;
          allowance = a;
          found = found;
          first = first;
          names = names_of_check a.allowed_parameters (ground arith);
          not_denied = denials_of_check a.deny_parameters (ground arith);
          path = given_path a (ground arith);
          domain = given_domain a (ground arith);
          command = given_command a (ground arith);
        }
      ]
    ]

    allowed_of_permits : Permits → is_tool_allowed hostname ms agent tool params ≡ some true
    unfolding is_tool_allowed allowance_permits
    allowed_of_permits p = ground (
      arith,
      p.found,
      p.first,
      check_of_names p.allowance.allowed_parameters p.names,
      check_of_denials p.allowance.deny_parameters p.not_denied,
      path_given p.allowance p.path,
      domain_given p.allowance p.domain,
      command_given p.allowance p.command,
    )

    -- A call is allowed exactly if the agent has a manifest, and its first allowance for the tool is met:
    -- where names are listed as allowed each parameter's name is one of them, where names are listed as
    -- denied none is; where path prefixes, domains or commands are listed, the call gives a path, a url
    -- or a command that is a text and not empty, the path is allowed under the prefixes, the host of the
    -- url, "" if it has none, is one of the domains, the command is allowed by the list.
    pub is_tool_allowed_iff : (is_tool_allowed hostname ms agent tool params ≡ some true) ↔ Permits
    is_tool_allowed_iff = (permits_of_allowed, allowed_of_permits)
