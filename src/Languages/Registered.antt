-- ===== src/Languages/Registered.antt =====
-- What the registration of a language does to the cache of extensions: python/languages/__init__.py.
use task_maker.Prelude.{
  ◌≡◌, refl, ◌∙◌, String, none, some, List, [], ◌∷◌, ◌++◌, All, Option-cases, Bool-cases, inl, inr,
  string_eq, ◌==◌, lookup, insert, lookup-insert, Result, ok, err,
}
use task_maker.Sources.{Language, LanguageManager, register_extensions, register_language}

-- The extensions of one manager belong to the same languages in the other.
abbrev pub Keeps : LanguageManager → LanguageManager → Type 0
Keeps m n =
    (ext : String) (other : Language)
    → lookup ext m.ext_cache ≡ some other
    → lookup ext n.ext_cache ≡ some other

-- What a registration that raises no error gives.
abbrev pub Extends : Language → List String → LanguageManager → Result LanguageManager → Type 0
Extends language exts m (err x) = Unit
Extends language exts m (ok n) =
    All (λ ext. lookup ext n.ext_cache ≡ some language) exts × Keeps m n

-- The language that the cache has for an extension after one is put in.
cache_after : Language → String → LanguageManager → LanguageManager
cache_after language ext m = record m { ext_cache = insert ext language m.ext_cache }

Keeps-insert :
    (language : Language) (ext : String) (m : LanguageManager)
    → lookup ext m.ext_cache ≡ none
    → Keeps m (cache_after language ext m)
unfolding cache_after
Keeps-insert language ext m e other found h = elim (Bool-cases (ext == other)) [
  | inl s ↦ let same : ext ≡ other = (string_eq.beq_iff ext other).0 s in absurd (cc)
  | inr s ↦ lookup-insert ext other language m.ext_cache ∙ rw s h
]

added :
    (language : Language) (ext : String) (m : LanguageManager)
    → lookup ext (cache_after language ext m).ext_cache ≡ some language
unfolding cache_after
added language ext m =
    lookup-insert ext ext language m.ext_cache ∙ rw ((string_eq.beq_iff ext ext).1 refl) refl

Extends-cons :
    (language : Language) (ext : String) (exts : List String) (m : LanguageManager)
    → lookup ext m.ext_cache ≡ none
    → (r : Result LanguageManager) → Extends language exts (cache_after language ext m) r
    → Extends language (ext ∷ exts) m r
Extends-cons language ext exts m e (err x) h = tt
Extends-cons language ext exts m e (ok n) (all, keeps) = (
  (keeps ext language (added language ext m), all),
  λ other found h. keeps other found (Keeps-insert language ext m e other found h),
)

register_extensions-Extends :
    (language : Language) (exts : List String) (m : LanguageManager)
    → Extends language exts m (register_extensions language exts m)
unfolding register_extensions cache_after
register_extensions-Extends language [] m = (tt, λ ext other h. h)
register_extensions-Extends language (ext ∷ exts) m = elim (Option-cases (lookup ext m.ext_cache)) [
  | inl e ↦
      rw (register_extensions, e)
        (Extends-cons language ext exts m e _
          (register_extensions-Extends language exts (cache_after language ext m)))
  | inr (other, e) ↦ rw (register_extensions, e) tt
]

-- When `register_language` raises no error, every extension of the language leads to it, and every
-- extension that led to a language before still leads to the same one.
pub register_language-Extends :
    (language : Language) (m : LanguageManager)
    → Extends language language.source_extensions m (register_language language m)
unfolding register_language
register_language-Extends language m =
    register_extensions-Extends language language.source_extensions
      (record m { languages = m.languages ++ language ∷ [] })
