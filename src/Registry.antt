-- ===== src/Registry.antt =====
-- resonate/src/registry.rs: the registry of durable functions. `F` is the type of a type-erased function.
use resonate_sdk_rs.Prelude.{
  String, ◌≡◌, refl, Bool, true, not, ◌&&◌, ◌==◌, eq_iff, [], Option, some, arith, if◌then◌else◌,
}
use resonate_sdk_rs.Prelude.Map
use resonate_sdk_rs.Prelude.Map.{HashMap, insert, contains_key, get-insert}
use resonate_sdk_rs.Error.{Result, ok, err, application, already_registered}

pub data DurableKind : Type 0 where
  function workflow : DurableKind

pub record RegistryEntry (F : Type 0) : Type 0 where
  pub kind : DurableKind
  pub func : F

pub record Registry (F : Type 0) : Type 0 where
  pub by_name : HashMap (RegistryEntry F)

module _ {F : Type 0} where
  abbrev pub new : Registry F
  new = record { by_name = [] }

  unfoldable pub add : String → DurableKind → F → Registry F → Result (true ≡ true) × Registry F
  add name kind func r =
      if name == ""
      then (err (application "name is required"), r)
      else if contains_key name r.by_name
      then (err (already_registered name), r)
      else (
        ok refl,
        record { by_name = insert name (record { kind = kind; func = func }) r.by_name },
      )

  unfoldable pub get : String → Registry F → Option (RegistryEntry F)
  get name r = Map.get name r.by_name

  unfoldable pub contains : String → Registry F → Bool
  contains name r = contains_key name r.by_name

  -- `add` registers a name that is not empty and not yet taken, and changes no other; it refuses every
  -- other name and changes nothing.
  pub get-add :
      (name other : String) (kind : DurableKind) (func : F) (r : Registry F)
      → get other (add name kind func r).1 ≡ (
          if not (name == "") && not (contains name r) && name == other
          then some (record { kind = kind; func = func })
          else get other r)
  unfolding get add contains
  get-add name other kind func r = ground (
    arith,
    eq_iff name other,
    get-insert name other (record { kind = kind; func = func }) r.by_name,
  )
