-- ===== src/Registry/Lookup.antt =====
-- What the registry holds after calls of `add`.
use query_playback.Prelude.{
  or_false, ℕ, ◌≡◌, refl, ap, subst, sym, ◌∙◌, Bool, false, ◌||◌, List, [], ◌∷◌, Option, none, some,
  ◌==◌, inl, inr, arith,
}
use query_playback.Text.{Bytes}
use query_playback.OrderedMap.{bytes_order, insert, lookup, insert_all, Ascends, nil}
use query_playback.OrderedMap.Laws.{
  insert_all-Ascends, lookup-insert_all, lookup-nil, lookup-here, lookup-cons,
}
use query_playback.Registry.{
  PluginMap, PluginRegistry, plugin_registry, PluginObject, plain, dbclient, report, input,
  dispatcher, add, add_all,
}

-- The maps of the registry.
pub data MapName : Type 0 where
  all_of : MapName
  dbclients : MapName
  reports : MapName
  inputs : MapName
  dispatchers : MapName

abbrev pub map_of : MapName → PluginRegistry → PluginMap
map_of all_of r = r.all_plugins
map_of dbclients r = r.dbclient_plugins
map_of reports r = r.report_plugins
map_of inputs r = r.input_plugins
map_of dispatchers r = r.dispatcher_plugins

-- The object that a call of `add` is to put into a map, if it is of that kind.
abbrev pub object_for : MapName → PluginObject → Option ℕ
object_for all_of (plain p) = some p
object_for all_of (dbclient p) = some p
object_for all_of (report p) = some p
object_for all_of (input p) = some p
object_for all_of (dispatcher p) = some p
object_for dbclients (plain p) = none
object_for dbclients (dbclient p) = some p
object_for dbclients (report p) = none
object_for dbclients (input p) = none
object_for dbclients (dispatcher p) = none
object_for reports (plain p) = none
object_for reports (dbclient p) = none
object_for reports (report p) = some p
object_for reports (input p) = none
object_for reports (dispatcher p) = none
object_for inputs (plain p) = none
object_for inputs (dbclient p) = none
object_for inputs (report p) = none
object_for inputs (input p) = some p
object_for inputs (dispatcher p) = none
object_for dispatchers (plain p) = none
object_for dispatchers (dbclient p) = none
object_for dispatchers (report p) = none
object_for dispatchers (input p) = none
object_for dispatchers (dispatcher p) = some p

abbrev cons_some : Bytes → Option ℕ → PluginMap → PluginMap
cons_some name none ps = ps
cons_some name (some p) ps = (name, p) ∷ ps

-- The names and objects that a sequence of calls is to put into a map, in the order of the calls.
abbrev pub given_for : MapName → List (Bytes × PluginObject) → PluginMap
given_for n [] = []
given_for n ((name, o) ∷ adds) = cons_some name (object_for n o) (given_for n adds)

-- A report plugin of the calls.
abbrev pub is_report : List (Bytes × PluginObject) → ℕ → Bool
is_report [] q = false
is_report ((name, report p) ∷ adds) q = q == p || is_report adds q
is_report ((name, plain p) ∷ adds) q = is_report adds q
is_report ((name, dbclient p) ∷ adds) q = is_report adds q
is_report ((name, input p) ∷ adds) q = is_report adds q
is_report ((name, dispatcher p) ∷ adds) q = is_report adds q

insert_some : Bytes → Option ℕ → PluginMap → PluginMap
insert_some name none m = m
insert_some name (some p) m = insert name p m

map_of-add :
    (n : MapName) (name : Bytes) (o : PluginObject) (r : PluginRegistry)
    → map_of n (add name o r) ≡ insert_some name (object_for n o) (map_of n r)
unfolding add insert_some
map_of-add n name o r = ground arith

insert_all-cons_some :
    (name : Bytes) (o : Option ℕ) (given m : PluginMap)
    → insert_all given (insert_some name o m) ≡ insert_all (cons_some name o given) m
unfolding insert_some insert_all
insert_all-cons_some name none given m = refl
insert_all-cons_some name (some p) given m = refl

map_of-add_all :
    (n : MapName) (adds : List (Bytes × PluginObject)) (r : PluginRegistry)
    → map_of n (add_all adds r) ≡ insert_all (given_for n adds) (map_of n r)
unfolding add_all insert_all
map_of-add_all n [] r = refl
map_of-add_all n ((name, o) ∷ adds) r =
    map_of-add_all n adds (add name o r)
    ∙ ap (λ (m : PluginMap). insert_all (given_for n adds) m) (map_of-add n name o r)
    ∙ insert_all-cons_some name (object_for n o) (given_for n adds) (map_of n r)

active-add :
    (name : Bytes) (o : PluginObject) (r : PluginRegistry) (adds : List (Bytes × PluginObject))
    (q : ℕ)
    → (is_report adds q || (add name o r).active q) ≡ (is_report ((name, o) ∷ adds) q || r.active q)
unfolding add
active-add name (plain p) r adds q = refl
active-add name (dbclient p) r adds q = refl
active-add name (report p) r adds q = ground arith
active-add name (input p) r adds q = refl
active-add name (dispatcher p) r adds q = refl

pub active-add_all :
    (adds : List (Bytes × PluginObject)) (r : PluginRegistry) (q : ℕ)
    → (add_all adds r).active q ≡ (is_report adds q || r.active q)
unfolding add_all
active-add_all [] r q = refl
active-add_all ((name, o) ∷ adds) r q =
    active-add_all adds (add name o r) q ∙ active-add name o r adds q

all_some : (o : PluginObject) → (p : ℕ) × (object_for all_of o ≡ some p)
all_some (plain p) = (p, refl)
all_some (dbclient p) = (p, refl)
all_some (report p) = (p, refl)
all_some (input p) = (p, refl)
all_some (dispatcher p) = (p, refl)

module _ (name l : Bytes) where
  abbrev IsApart : Type 0
  IsApart = (p : ℕ) (m : PluginMap) → lookup name ((l, p) ∷ m) ≡ lookup name m

  lookup-cons_some :
      (o : Option ℕ) (m : PluginMap) → IsApart → lookup name (cons_some l o m) ≡ lookup name m
  lookup-cons_some none m apart = refl
  lookup-cons_some (some p) m apart = apart p m

not_listed :
    (n : MapName) (name : Bytes) (adds : List (Bytes × PluginObject))
    → lookup name (given_for all_of adds) ≡ none
    → lookup name (given_for n adds) ≡ none
not_listed n name [] h = lookup-nil name
not_listed n name ((l, o) ∷ adds) h = elim (lookup-cons name l) [
  | inl apart ↦
      lookup-cons_some name l (object_for n o) (given_for n adds) apart
      ∙ not_listed n name adds
          (sym (lookup-cons_some name l (object_for all_of o) (given_for all_of adds) apart) ∙ h)
  | inr same ↦
      let (p, is_some) = all_some o in
      let here = lookup-here l p (given_for all_of adds) in
      let found : lookup l (cons_some l (object_for all_of o) (given_for all_of adds)) ≡ some p =
        rw is_some here in
      let none_there : lookup l (cons_some l (object_for all_of o) (given_for all_of adds)) ≡ none =
        ap (λ (x : Bytes). lookup x (cons_some l (object_for all_of o) (given_for all_of adds)))
          (sym same)
        ∙ h in
      absurd (ground (arith, found, none_there))
]

-- A registry that holds what a sequence of calls of `add` gave it.
pub record Holds (adds : List (Bytes × PluginObject)) (r : PluginRegistry) : Type 0 where
  pub ascends : (n : MapName) → Ascends (map_of n r)
  pub finds :
      (n : MapName) (name : Bytes) → lookup name (map_of n r) ≡ lookup name (given_for n adds)
  pub listed :
      (n : MapName) (name : Bytes)
      → lookup name r.all_plugins ≡ none
      → lookup name (map_of n r) ≡ none
  pub active_is : (q : ℕ) → r.active q ≡ is_report adds q

empty_map : (n : MapName) → map_of n plugin_registry ≡ []
empty_map all_of = refl
empty_map dbclients = refl
empty_map reports = refl
empty_map inputs = refl
empty_map dispatchers = refl

map_of-registered :
    (n : MapName) (adds : List (Bytes × PluginObject))
    → map_of n (add_all adds plugin_registry) ≡ insert_all (given_for n adds) []
map_of-registered n adds =
    map_of-add_all n adds plugin_registry
    ∙ ap (λ (m : PluginMap). insert_all (given_for n adds) m) (empty_map n)

lookup-registered :
    (n : MapName) (name : Bytes) (adds : List (Bytes × PluginObject))
    → lookup name (map_of n (add_all adds plugin_registry)) ≡ lookup name (given_for n adds)
lookup-registered n name adds =
    ap (λ (m : PluginMap). lookup name m) (map_of-registered n adds)
    ∙ lookup-insert_all name (given_for n adds) [] nil
    ∙ rw (lookup-nil {A = ℕ} name)

-- After any calls of `add`, each map of the registry is in the ascending order of the names, and
-- holds under a name the object of the first call of its kind with this name; a name of any kind is
-- among all the plugins too; and exactly the report plugins are active.
pub add_all-Holds : (adds : List (Bytes × PluginObject)) → Holds adds (add_all adds plugin_registry)
add_all-Holds adds = record {
  ascends = λ n.
      subst (λ (m : PluginMap). Ascends m) (sym (map_of-registered n adds))
        (insert_all-Ascends (given_for n adds) [] nil);
  finds = λ n name. lookup-registered n name adds;
  listed = λ n name missing.
      lookup-registered n name adds
      ∙ not_listed n name adds (sym (lookup-registered all_of name adds) ∙ missing);
  active_is = λ q. active-add_all adds plugin_registry q ∙ or_false (is_report adds q);
}
