-- ===== src/I18n.antt =====
-- internal/i18n: the choice between the French text and the English one. The language is resolved
-- once, at the start of the process, so that it is a parameter of what renders text.
use pepin.Prelude.{String, Bool, not, ◌&&◌, if◌then◌else◌, ◌==◌, trim_space}

pub data Lang : Type 0 where
  fr en : Lang

-- `TIn`; `T` is this at the current language.
abbrev pub t_in : Lang → String → String → String
t_in Lang.fr f e = f
t_in Lang.en f e = e

abbrev is_en : Lang → Bool
is_en Lang.fr = Bool.false
is_en Lang.en = Bool.true

-- A missing translation gives the French text.
unfoldable pub pick_in : Lang → String → String → String
unfolding trim_space
pick_in l f e = if is_en l && not (trim_space e == "") then e else f
