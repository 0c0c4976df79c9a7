-- ===== src/Registry.antt =====
-- The tables of interfaces and formats, nvram_interface.c and nvram_format.c. Which entries they
-- hold is chosen when the program is built.
use nvram.Base.{Option, none, some, List, [], ◌∷◌, Bytes, same, if◌then◌else◌}
use nvram.Device.{Device}
use nvram.Format.{Format}

-- `enum section`
pub data Section : Type 0 where
  system_a system_b user_a user_b : Section

-- A default that is compiled in, and the variable that overrides it.
pub record SectionDesc : Type 0 where
  pub default : Bytes
  pub env : Bytes

-- `struct interface_desc`
pub record InterfaceDesc (World : Type 0) : Type 1 where
  pub name : Bytes
  pub interface : Device World
  pub system_a : SectionDesc
  pub system_b : SectionDesc
  pub user_a : SectionDesc
  pub user_b : SectionDesc

-- `struct format_desc`; a format is run over an interface.
pub record FormatDesc (World : Type 0) : Type 1 where
  pub name : Bytes
  pub format : Device World → Format World

-- `getenv` with a default.
unfoldable pub get_env_str : (Bytes → Option Bytes) → Bytes → Bytes → Bytes
get_env_str getenv env def = elim (getenv env) [ some str ↦ str | none ↦ def ]

section_desc : {World : Type 0} → InterfaceDesc World → Section → SectionDesc
section_desc desc system_a = desc.system_a
section_desc desc system_b = desc.system_b
section_desc desc user_a = desc.user_a
section_desc desc user_b = desc.user_b

module _ {World : Type 0} where
  unfoldable pub nvram_get_interface : List (InterfaceDesc World) → Bytes → Option (Device World)
  nvram_get_interface [] name = none
  nvram_get_interface (desc ∷ rest) name =
      if same desc.name name then some desc.interface else nvram_get_interface rest name

  unfoldable pub nvram_get_interface_section :
      (Bytes → Option Bytes) → List (InterfaceDesc World) → Bytes → Section → Option Bytes
  unfolding get_env_str section_desc
  nvram_get_interface_section getenv [] name s = none
  nvram_get_interface_section getenv (desc ∷ rest) name s =
      let d = section_desc desc s in
      if same desc.name name
      then some (get_env_str getenv d.env d.default)
      else nvram_get_interface_section getenv rest name s

  unfoldable pub nvram_get_format :
      List (FormatDesc World) → Bytes → Option (Device World → Format World)
  nvram_get_format [] name = none
  nvram_get_format (desc ∷ rest) name =
      if same desc.name name then some desc.format else nvram_get_format rest name
