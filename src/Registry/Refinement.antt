-- ===== src/Registry/Refinement.antt =====
-- The registry of src/registry.rs as what it promises: a map from names to valid definitions.
use edgewit.Prelude.{
  ◌≡◌, refl, sym, ap, false, Option, none, some, List, [], ◌∷◌, Text, Assoc, lookup, is_some,
  if◌then◌else◌, lookup-insert, lookup-remove, text_eq, contains_key_lem,
}
use mathlib.Core.Path.{fun_ext, subst}
use edgewit.Prelude.Attempts.{Attempt, returns, fails, panics}
use edgewit.Schema.Definition.{IndexDefinition}
use edgewit.Schema.Validation.{ValidationError, validate_schema}
use edgewit.Registry.Store.{
  RegistryError, already_exists, not_found, validation_error, IndexRegistry, Method, validated, put,
  removed, register, upsert, remove, get,
}

-- A call of the registry, and what it answers.
pub data Request : Type 0 where
  register_call upsert_call : IndexDefinition → Request
  remove_call get_call : Text → Request

pub data Reply : Type 0 where
  changed : Attempt RegistryError (Unit {0}) → Reply
  taken : Attempt RegistryError IndexDefinition → Reply
  shown : Option IndexDefinition → Reply

abbrev pub perform_changed :
    Attempt RegistryError (Unit {0}) × IndexRegistry → Reply × IndexRegistry
perform_changed (r, reg) = (changed r, reg)

abbrev pub perform_taken :
    Attempt RegistryError IndexDefinition × IndexRegistry → Reply × IndexRegistry
perform_taken (r, reg) = (taken r, reg)

unfoldable pub perform : Request → IndexRegistry → Reply × IndexRegistry
perform (register_call d) reg = perform_changed (register d reg)
perform (upsert_call d) reg = perform_changed (upsert d reg)
perform (remove_call name) reg = perform_taken (remove name reg)
perform (get_call name) reg = (shown (get reg name), reg)

unfoldable pub perform_all : List Request → IndexRegistry → List Reply × IndexRegistry
perform_all [] reg = ([], reg)
perform_all (q ∷ qs) reg =
    let (reply, reg') = perform q reg in
    let (replies, last) = perform_all qs reg' in (reply ∷ replies, last)

-- The promise: a function from names to definitions, with no list, no lock and no order.
abbrev pub Definitions : Type 0
Definitions = Text → Option IndexDefinition

abbrev pub with_definition : IndexDefinition → Definitions → Definitions
with_definition d defs name = if text_eq d.name name then some d else defs name

abbrev pub without : Text → Definitions → Definitions
without name defs j = if text_eq name j then none else defs j

-- An invalid definition changes nothing.
abbrev pub if_valid :
    Attempt ValidationError (Unit {0}) → Reply × Definitions → Definitions → Reply × Definitions
if_valid (returns u) result defs = result
if_valid (fails e) result defs = (changed (fails (validation_error e)), defs)
if_valid panics result defs = (changed panics, defs)

abbrev pub add_new : IndexDefinition → Option IndexDefinition → Definitions → Reply × Definitions
add_new d none defs = (changed (returns tt), with_definition d defs)
add_new d (some old) defs = (changed (fails (already_exists d.name)), defs)

abbrev pub take_out : Text → Option IndexDefinition → Definitions → Reply × Definitions
take_out name none defs = (taken (fails (not_found name)), defs)
take_out name (some d) defs = (taken (returns d), without name defs)

abbrev pub promised : Request → Definitions → Reply × Definitions
promised (register_call d) defs = if_valid (validate_schema d) (add_new d (defs d.name) defs) defs
promised (upsert_call d) defs =
    if_valid (validate_schema d) (changed (returns tt), with_definition d defs) defs
promised (remove_call name) defs = take_out name (defs name) defs
promised (get_call name) defs = (shown (defs name), defs)

abbrev pub promised_all : List Request → Definitions → List Reply × Definitions
promised_all [] defs = ([], defs)
promised_all (q ∷ qs) defs =
    let (reply, defs') = promised q defs in
    let (replies, last) = promised_all qs defs' in (reply ∷ replies, last)

-- A result of the registry that keeps a promise.
pub record Keeps (r : Reply × IndexRegistry) (p : Reply × Definitions) : Type 0 where
  pub reply : r.0 ≡ p.0
  pub state : get r.1 ≡ p.1
  pub usable : r.1.poisoned ≡ false

abbrev usable_with : Assoc IndexDefinition → IndexRegistry
usable_with m = record { indexes = m; poisoned = false }

put-Keeps :
    (d : IndexDefinition) (m : Assoc IndexDefinition)
    → Keeps
        (perform_changed (put d (usable_with m)))
        (changed (returns tt), with_definition d (get (usable_with m)))
unfolding get
put-Keeps d m = record {
  reply = refl;
  state = fun_ext λ name. lookup-insert d.name name d m;
  usable = refl;
}

validated-Keeps :
    (v : Attempt ValidationError (Unit {0})) (rest : Method (Unit {0})) (m : Assoc IndexDefinition)
    (p : Reply × Definitions)
    → Keeps (perform_changed (rest (usable_with m))) p
    → Keeps
        (perform_changed (validated v rest (usable_with m)))
        (if_valid v p (get (usable_with m)))
validated-Keeps (returns u) rest m p k = k
validated-Keeps (fails e) rest m p k = record { reply = refl; state = refl; usable = refl }
validated-Keeps panics rest m p k = record { reply = refl; state = refl; usable = refl }

register-Keeps :
    (d : IndexDefinition) (m : Assoc IndexDefinition)
    → Keeps
        (perform (register_call d) (usable_with m))
        (promised (register_call d) (get (usable_with m)))
unfolding perform register
register-Keeps d m =
    validated-Keeps (validate_schema d) _ m _
      (unfold get in rw (contains_key_lem d.name m) (by_entry (lookup d.name m)))
  where
    by_entry :
        (o : Option IndexDefinition)
        → Keeps
            (perform_changed (
              if is_some o
              then (fails (already_exists d.name), usable_with m)
              else put d (usable_with m)))
            (add_new d o (get (usable_with m)))
    by_entry none = put-Keeps d m
    by_entry (some old) = record { reply = refl; state = refl; usable = refl }

remove-Keeps :
    (name : Text) (m : Assoc IndexDefinition)
    → Keeps
        (perform (remove_call name) (usable_with m))
        (promised (remove_call name) (get (usable_with m)))
unfolding perform remove
remove-Keeps name m = unfold get in by_entry (lookup name m)
  where
    by_entry :
        (o : Option IndexDefinition)
        → Keeps
            (perform_taken (removed name (usable_with m) o))
            (take_out name o (get (usable_with m)))
    by_entry none = record { reply = refl; state = refl; usable = refl }
    by_entry (some d) = record {
      reply = refl;
      state = fun_ext λ j. unfold get in lookup-remove name j m;
      usable = refl;
    }

usable_eq : (reg : IndexRegistry) → reg.poisoned ≡ false → usable_with reg.indexes ≡ reg
usable_eq reg free = ap (λ b. record { indexes = reg.indexes; poisoned = b }) (sym free)

perform-Keeps :
    (q : Request) (m : Assoc IndexDefinition)
    → Keeps (perform q (usable_with m)) (promised q (get (usable_with m)))
perform-Keeps (register_call d) m = register-Keeps d m
perform-Keeps (upsert_call d) m =
    unfold perform upsert in validated-Keeps (validate_schema d) _ m _ (put-Keeps d m)
perform-Keeps (remove_call name) m = remove-Keeps name m
perform-Keeps (get_call name) m =
    unfold perform in (record { reply = refl; state = refl; usable = refl })

-- On a registry that is not poisoned, every sequence of registrations, upserts, removals and look-
-- ups gives the answers that a function from names to definitions would give, changed only by
-- valid definitions and at their names, and ends with the definitions of that function.
pub perform_all-promised_all :
    (qs : List Request) (reg : IndexRegistry)
    → reg.poisoned ≡ false
    → ((perform_all qs reg).0 ≡ (promised_all qs (get reg)).0)
      × (get (perform_all qs reg).1 ≡ (promised_all qs (get reg)).1)
unfolding perform_all
perform_all-promised_all [] reg free = (refl, refl)
perform_all-promised_all (q ∷ qs) reg free =
    let k : Keeps (perform q reg) (promised q (get reg)) =
      subst (λ r. Keeps (perform q r) (promised q (get r))) (usable_eq reg free)
        (perform-Keeps q reg.indexes) in
    let (same, last) = perform_all-promised_all qs (perform q reg).1 k.usable in
    rw (← k.state, ← k.reply) (ap (◌∷◌ (perform q reg).0) same, last)
