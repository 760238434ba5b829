-- ===== src/Sequencing/Prefix.antt =====
-- resonate/src/sequencing.rs: the order in which promises are created.
use resonate_sdk_rs.Prelude.{◌≡◌, true, List, [], ◌∷◌}
use resonate_sdk_rs.Error.{Error}
use resonate_sdk_rs.Sequencing.{created, Slot, requested, creation_state}

abbrev pub AllCreated : List Slot → Type 0
AllCreated [] = true ≡ true
AllCreated (x ∷ xs) = (creation_state x ≡ created) × AllCreated xs

-- A created slot has called the server.
abbrev Called : Slot → Type 0
Called x = creation_state x ≡ created → requested x ≡ true

-- A slot that has called the server follows created ones only.
abbrev pub IsPrefix : List Slot → Type 0
IsPrefix [] = true ≡ true
IsPrefix (x ∷ xs) = Called x × (requested x ≡ true → AllCreated xs) × IsPrefix xs
