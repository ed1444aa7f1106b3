-- ===== src/Loom/Same.antt =====
-- crates/beacon/src/types.rs: the equality of rules, as crates/loom compares them.
use kaleidoscope.Prelude.{
  ◌≡◌, ◌↔◌, Bool, true, false, ◌&&◌, Option, none, some, List, [], ◌∷◌, Key, ◌==◌, string_key,
  nat_key, pair_key, eq_iff, arith, refl,
}
use kaleidoscope.Prelude.Order.{nat_order}
use kaleidoscope.Beacon.Types.{Severity, SinkConfig, Rule}

-- The derived `PartialEq` of lists, options, severities, sinks and rules.
module _ {ℓ} {A : Type ℓ} ⦃key : Key A⦄ where
  abbrev pub same_list : List A → List A → Bool
  same_list [] [] = true
  same_list [] (y ∷ ys) = false
  same_list (x ∷ xs) [] = false
  same_list (x ∷ xs) (y ∷ ys) = (x == y) && same_list xs ys

  pub same_list-equal : (a b : List A) → (same_list a b ≡ true) ↔ (a ≡ b)
  same_list-equal [] [] = (λ h. refl, λ h. refl)
  same_list-equal [] (y ∷ ys) = (λ h. cc, λ h. cc)
  same_list-equal (x ∷ xs) [] = (λ h. cc, λ h. cc)
  same_list-equal (x ∷ xs) (y ∷ ys) = (
    λ h. ground (arith, key.same_iff x y, same_list-equal xs ys),
    λ h. ground (arith, key.same_iff x y, same_list-equal xs ys),
  )

  instance abbrev pub list_key : Key (List A)
  list_key = record { same = same_list; same_iff = same_list-equal }

  abbrev pub same_option : Option A → Option A → Bool
  same_option none none = true
  same_option none (some y) = false
  same_option (some x) none = false
  same_option (some x) (some y) = x == y

  pub same_option-equal : (a b : Option A) → (same_option a b ≡ true) ↔ (a ≡ b)
  same_option-equal none none = (λ h. refl, λ h. refl)
  same_option-equal none (some y) = (λ h. cc, λ h. cc)
  same_option-equal (some x) none = (λ h. cc, λ h. cc)
  same_option-equal (some x) (some y) =
      (λ h. ground (arith, key.same_iff x y), λ h. ground (arith, key.same_iff x y))

  instance abbrev pub option_key : Key (Option A)
  option_key = record { same = same_option; same_iff = same_option-equal }

abbrev pub same_severity : Severity → Severity → Bool
same_severity Severity.info Severity.info = true
same_severity Severity.warning Severity.warning = true
same_severity Severity.critical Severity.critical = true
same_severity _ _ = false

pub same_severity-equal : (a b : Severity) → (same_severity a b ≡ true) ↔ (a ≡ b)
same_severity-equal a b = (λ h. ground arith, λ h. ground arith)

instance abbrev pub severity_key : Key Severity
severity_key = record { same = same_severity; same_iff = same_severity-equal }

abbrev pub same_sink : SinkConfig → SinkConfig → Bool
same_sink a b =
    (a.kind == b.kind)
    && (a.url == b.url)
    && (a.channel == b.channel)
    && (a.topic == b.topic)
    && (a.auth_token_env == b.auth_token_env)

pub same_sink-equal : (a b : SinkConfig) → (same_sink a b ≡ true) ↔ (a ≡ b)
same_sink-equal a b = (
  λ h. ground (
    arith,
    eq_iff a.kind b.kind,
    same_option-equal a.url b.url,
    same_option-equal a.channel b.channel,
    same_option-equal a.topic b.topic,
    same_option-equal a.auth_token_env b.auth_token_env,
  ),
  λ h. ground (
    arith,
    eq_iff a.kind b.kind,
    same_option-equal a.url b.url,
    same_option-equal a.channel b.channel,
    same_option-equal a.topic b.topic,
    same_option-equal a.auth_token_env b.auth_token_env,
  ),
)

instance abbrev pub sink_key : Key SinkConfig
sink_key = record { same = same_sink; same_iff = same_sink-equal }

abbrev pub same_rule : Rule → Rule → Bool
same_rule a b =
    (a.name == b.name)
    && (a.query == b.query)
    && (a.for_duration == b.for_duration)
    && (a.interval == b.interval)
    && (a.severity == b.severity)
    && (a.labels == b.labels)
    && (a.sinks == b.sinks)
    && (a.inhibits == b.inhibits)

pub same_rule-equal : (a b : Rule) → (same_rule a b ≡ true) ↔ (a ≡ b)
same_rule-equal a b = (
  λ h. ground (
    arith,
    eq_iff a.name b.name,
    eq_iff a.query b.query,
    same_severity-equal a.severity b.severity,
    same_list-equal a.labels b.labels,
    same_list-equal a.sinks b.sinks,
    same_list-equal a.inhibits b.inhibits,
  ),
  λ h. ground (
    arith,
    eq_iff a.name b.name,
    eq_iff a.query b.query,
    same_severity-equal a.severity b.severity,
    same_list-equal a.labels b.labels,
    same_list-equal a.sinks b.sinks,
    same_list-equal a.inhibits b.inhibits,
  ),
)

instance abbrev pub rule_key : Key Rule
rule_key = record { same = same_rule; same_iff = same_rule-equal }
