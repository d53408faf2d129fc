-- ===== src/Strip/Dispatch.antt =====
-- crates/agents/nerd/src/coding/noise_stripper/mod.rs: the language of a file, by its extension, and
-- the stripper of a language. `Path::extension` and the conversion of the extension to a text are
-- the standard library's: the extension is an argument.
use text.Mathlib.Text.{◌==◌ as str_eq}
use xoxo.Base.{Bool, true, false, List, [], ◌∷◌, Option, none, some, Bytes, String, if◌then◌else◌}
use xoxo.Strip.JavaScript.{Chars, standard, jsx, vue, strip_javascript_noise}
use xoxo.Strip.Rust.{strip_rust_noise}
use xoxo.Strip.Python.{strip_python_noise}
use xoxo.Strip.Php.{strip_php_noise}
use xoxo.Strip.CFamily.{strip_c_family_noise}
use xoxo.Strip.CSharp.{strip_c_sharp_noise}
use xoxo.Strip.Ruby.{strip_ruby_noise}
use xoxo.Strip.Shell.{strip_shell_noise}
use xoxo.Strip.GraphQl.{strip_graphql_noise}
use xoxo.Strip.Kotlin.{strip_kotlin_noise}
use xoxo.Strip.Swift.{strip_swift_noise}
use xoxo.Strip.Elixir.{strip_elixir_noise}
use xoxo.Strip.Groovy.{strip_groovy_noise}
use xoxo.Strip.Dart.{strip_dart_noise}
use xoxo.Strip.Haskell.{strip_haskell_noise}
use xoxo.Strip.Erlang.{strip_erlang_noise}
use xoxo.Strip.Fortran.{strip_fortran_noise}
use xoxo.Strip.Julia.{strip_julia_noise}
use xoxo.Strip.Lua.{strip_lua_noise}
use xoxo.Strip.Scala.{strip_scala_noise}
use xoxo.Strip.VbNet.{strip_vb_net_noise}
use xoxo.Strip.Go.{strip_go_noise}
use xoxo.Strip.Toml.{strip_toml_noise}
use xoxo.Strip.Yaml.{strip_yaml_noise}

-- The constructors stand for those of `SourceLanguage`.
pub data SourceLanguage : Type 0 where
  rust type_script java_script jsx_script tsx_script vue_script python php : SourceLanguage
  c_family c_sharp ruby shell graph_ql java solidity kotlin swift elixir : SourceLanguage
  groovy dart haskell erlang fortran julia lua scala vb_net go toml yaml : SourceLanguage

-- The text is one of those listed.
abbrev any_of : List String → String → Bool
any_of [] s = false
any_of (x ∷ xs) s = if str_eq s x then true else any_of xs s

-- `ExtensionLanguageDetector`, on the extension.
unfoldable pub language_of : String → Option SourceLanguage
language_of extension =
    if any_of ("rs" ∷ []) extension
    then some rust
    else if any_of ("ts" ∷ []) extension
    then some type_script
    else if any_of ("js" ∷ []) extension
    then some java_script
    else if any_of ("tsx" ∷ []) extension
    then some tsx_script
    else if any_of ("jsx" ∷ []) extension
    then some jsx_script
    else if any_of ("vue" ∷ []) extension
    then some vue_script
    else if any_of ("py" ∷ []) extension
    then some python
    else if any_of ("php" ∷ []) extension
    then some php
    else if any_of ("cs" ∷ []) extension
    then some c_sharp
    else if any_of ("rb" ∷ []) extension
    then some ruby
    else if any_of ("sh" ∷ "bash" ∷ "zsh" ∷ "ksh" ∷ []) extension
    then some shell
    else if any_of ("graphql" ∷ "gql" ∷ []) extension
    then some graph_ql
    else if any_of ("java" ∷ []) extension
    then some java
    else if any_of ("sol" ∷ []) extension
    then some solidity
    else if any_of ("kt" ∷ "kts" ∷ []) extension
    then some kotlin
    else if any_of ("swift" ∷ []) extension
    then some swift
    else if any_of ("ex" ∷ "exs" ∷ []) extension
    then some elixir
    else if any_of ("groovy" ∷ "gradle" ∷ []) extension
    then some groovy
    else if any_of ("dart" ∷ []) extension
    then some dart
    else if any_of ("hs" ∷ []) extension
    then some haskell
    else if any_of ("erl" ∷ "hrl" ∷ []) extension
    then some erlang
    else if any_of ("f" ∷ "for" ∷ "f90" ∷ "f95" ∷ "f03" ∷ "f08" ∷ []) extension
    then some fortran
    else if any_of ("jl" ∷ []) extension
    then some julia
    else if any_of ("lua" ∷ []) extension
    then some lua
    else if any_of ("scala" ∷ "sc" ∷ []) extension
    then some scala
    else if any_of ("vb" ∷ []) extension
    then some vb_net
    else if any_of ("c" ∷ "h" ∷ "cc" ∷ "cpp" ∷ "cxx" ∷ "hh" ∷ "hpp" ∷ "hxx" ∷ []) extension
    then some c_family
    else if any_of ("go" ∷ []) extension
    then some go
    else if any_of ("toml" ∷ []) extension
    then some toml
    else if any_of ("yaml" ∷ "yml" ∷ []) extension
    then some yaml
    else none

-- `ExtensionLanguageDetector::detect_language`, on the extension of the path, if it has one.
unfoldable pub detect_language : Option String → Option SourceLanguage
unfolding language_of
detect_language none = none
detect_language (some extension) = language_of extension

-- What the strippers take from the standard library. A text is its UTF-8 bytes, what is written the
-- numbers of characters: `decode` gives those of a text that is taken as it is.
pub record Std : Type 0 where
  pub is_utf8 : Bytes → Bool
  pub is_blank : Bytes → Bool
  pub decode : Bytes → Bytes
  pub chars : Chars

module _ (std : Std) where
  unfoldable pub strip_noise_for_language : SourceLanguage → Bytes → Bytes
  strip_noise_for_language rust content = strip_rust_noise content
  strip_noise_for_language type_script content = strip_javascript_noise std.chars standard content
  strip_noise_for_language java_script content = strip_javascript_noise std.chars standard content
  strip_noise_for_language jsx_script content = strip_javascript_noise std.chars jsx content
  strip_noise_for_language tsx_script content = strip_javascript_noise std.chars jsx content
  strip_noise_for_language vue_script content = strip_javascript_noise std.chars vue content
  strip_noise_for_language python content = strip_python_noise std.is_utf8 content
  strip_noise_for_language php content = strip_php_noise content
  strip_noise_for_language c_family content = strip_c_family_noise content
  strip_noise_for_language c_sharp content = strip_c_sharp_noise content
  strip_noise_for_language ruby content = strip_ruby_noise content
  strip_noise_for_language shell content = strip_shell_noise content
  strip_noise_for_language graph_ql content = strip_graphql_noise content
  strip_noise_for_language java content = strip_c_family_noise content
  strip_noise_for_language solidity content = strip_c_family_noise content
  strip_noise_for_language kotlin content = strip_kotlin_noise content
  strip_noise_for_language swift content = strip_swift_noise content
  strip_noise_for_language elixir content = strip_elixir_noise content
  strip_noise_for_language groovy content = strip_groovy_noise content
  strip_noise_for_language dart content = strip_dart_noise content
  strip_noise_for_language haskell content = strip_haskell_noise content
  strip_noise_for_language erlang content = strip_erlang_noise content
  strip_noise_for_language fortran content = strip_fortran_noise std.decode content
  strip_noise_for_language julia content = strip_julia_noise content
  strip_noise_for_language lua content = strip_lua_noise content
  strip_noise_for_language scala content = strip_scala_noise content
  strip_noise_for_language vb_net content = strip_vb_net_noise content
  strip_noise_for_language go content = strip_go_noise content
  strip_noise_for_language toml content = strip_toml_noise content
  strip_noise_for_language yaml content = strip_yaml_noise std.is_blank std.decode content

  -- `strip_noise`; the flag is the feature `extension-language-detection`. Without it, and for an
  -- extension that is not known, the text stays: its bytes give the characters that they encode.
  unfoldable pub strip_noise : Bool → Option String → Bytes → Bytes
  unfolding detect_language strip_noise_for_language
  strip_noise feature extension content =
      elim (if feature then detect_language extension else none) [
        | none ↦ std.decode content
        | some language ↦ strip_noise_for_language language content
      ]
