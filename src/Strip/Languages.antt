-- ===== src/Strip/Languages.antt =====
-- Which languages keep the shape of the text.
use xoxo.Base.{Bool, true, false, Option, none, some, ◌≡◌, Bytes, String}
use xoxo.Strip.Scan.{SameShape}
use xoxo.Strip.Dispatch.{
  SourceLanguage, Std, detect_language, strip_noise, strip_noise_for_language, rust, type_script,
  java_script, jsx_script, tsx_script, vue_script, python, php, c_family, c_sharp, ruby, shell,
  graph_ql, java, solidity, kotlin, swift, elixir, groovy, dart, haskell, erlang, fortran, julia,
  lua, scala, vb_net, go, toml, yaml,
}
use xoxo.Strip.Shape.{SameShape-refl, IsAscii, KeepsAscii}
use xoxo.Strip.Rust.Covers.{strip_rust_noise-SameShape}
use xoxo.Strip.Yaml.Keeps.{strip_yaml_noise-SameShape}
use xoxo.Strip.Python.{strip_python_noise-SameShape}
use xoxo.Strip.Php.{strip_php_noise-SameShape}
use xoxo.Strip.CFamily.{strip_c_family_noise-SameShape}
use xoxo.Strip.CSharp.{strip_c_sharp_noise-SameShape}
use xoxo.Strip.Ruby.{strip_ruby_noise-SameShape}
use xoxo.Strip.Shell.{strip_shell_noise-SameShape}
use xoxo.Strip.GraphQl.{strip_graphql_noise-SameShape}
use xoxo.Strip.Kotlin.{strip_kotlin_noise-SameShape}
use xoxo.Strip.Swift.{strip_swift_noise-SameShape}
use xoxo.Strip.Elixir.{strip_elixir_noise-SameShape}
use xoxo.Strip.Groovy.{strip_groovy_noise-SameShape}
use xoxo.Strip.Dart.{strip_dart_noise-SameShape}
use xoxo.Strip.Haskell.{strip_haskell_noise-SameShape}
use xoxo.Strip.Erlang.{strip_erlang_noise-SameShape}
use xoxo.Strip.Julia.{strip_julia_noise-SameShape}
use xoxo.Strip.Lua.{strip_lua_noise-SameShape}
use xoxo.Strip.Scala.{strip_scala_noise-SameShape}
use xoxo.Strip.Go.{strip_go_noise-SameShape}
use xoxo.Strip.Toml.{strip_toml_noise-SameShape}

-- All but JavaScript and its kin, Fortran and VB.NET.
abbrev pub keeps_bytes : SourceLanguage → Bool
keeps_bytes type_script = false
keeps_bytes java_script = false
keeps_bytes jsx_script = false
keeps_bytes tsx_script = false
keeps_bytes vue_script = false
keeps_bytes fortran = false
keeps_bytes vb_net = false
keeps_bytes _ = true

-- A file whose language is not known stays as it is.
abbrev pub keeps_file : Option SourceLanguage → Bool
keeps_file none = true
keeps_file (some language) = keeps_bytes language

-- The stripper of a language that works byte by byte reads an ASCII text to its end and keeps its
-- shape.
pub strip_noise_for_language-SameShape :
    (std : Std) (language : SourceLanguage) (content : Bytes)
    → KeepsAscii std.decode
    → IsAscii content
    → keeps_bytes language ≡ true
    → SameShape content (strip_noise_for_language std language content)
unfolding strip_noise_for_language
strip_noise_for_language-SameShape std rust content k a h = strip_rust_noise-SameShape content
strip_noise_for_language-SameShape std type_script content k a h = cc
strip_noise_for_language-SameShape std java_script content k a h = cc
strip_noise_for_language-SameShape std jsx_script content k a h = cc
strip_noise_for_language-SameShape std tsx_script content k a h = cc
strip_noise_for_language-SameShape std vue_script content k a h = cc
strip_noise_for_language-SameShape std python content k a h =
    strip_python_noise-SameShape std.is_utf8 content
strip_noise_for_language-SameShape std php content k a h = strip_php_noise-SameShape content
strip_noise_for_language-SameShape std c_family content k a h =
    strip_c_family_noise-SameShape content
strip_noise_for_language-SameShape std c_sharp content k a h = strip_c_sharp_noise-SameShape content
strip_noise_for_language-SameShape std ruby content k a h = strip_ruby_noise-SameShape content
strip_noise_for_language-SameShape std shell content k a h = strip_shell_noise-SameShape content
strip_noise_for_language-SameShape std graph_ql content k a h =
    strip_graphql_noise-SameShape content
strip_noise_for_language-SameShape std java content k a h = strip_c_family_noise-SameShape content
strip_noise_for_language-SameShape std solidity content k a h =
    strip_c_family_noise-SameShape content
strip_noise_for_language-SameShape std kotlin content k a h = strip_kotlin_noise-SameShape content
strip_noise_for_language-SameShape std swift content k a h = strip_swift_noise-SameShape content
strip_noise_for_language-SameShape std elixir content k a h = strip_elixir_noise-SameShape content
strip_noise_for_language-SameShape std groovy content k a h = strip_groovy_noise-SameShape content
strip_noise_for_language-SameShape std dart content k a h = strip_dart_noise-SameShape content
strip_noise_for_language-SameShape std haskell content k a h = strip_haskell_noise-SameShape content
strip_noise_for_language-SameShape std erlang content k a h = strip_erlang_noise-SameShape content
strip_noise_for_language-SameShape std fortran content k a h = cc
strip_noise_for_language-SameShape std julia content k a h = strip_julia_noise-SameShape content
strip_noise_for_language-SameShape std lua content k a h = strip_lua_noise-SameShape content
strip_noise_for_language-SameShape std scala content k a h = strip_scala_noise-SameShape content
strip_noise_for_language-SameShape std vb_net content k a h = cc
strip_noise_for_language-SameShape std go content k a h = strip_go_noise-SameShape content
strip_noise_for_language-SameShape std toml content k a h = strip_toml_noise-SameShape content
strip_noise_for_language-SameShape std yaml content k a h =
    strip_yaml_noise-SameShape std.is_blank std.decode k content a

language-SameShape :
    (std : Std) (o : Option SourceLanguage) (content : Bytes)
    → KeepsAscii std.decode
    → IsAscii content
    → keeps_file o ≡ true
    → SameShape content
        (elim o [ none ↦ std.decode content | some l ↦ strip_noise_for_language std l content ])
language-SameShape std none content k a h = rw (k content a) (SameShape-refl content)
language-SameShape std (some l) content k a h =
    strip_noise_for_language-SameShape std l content k a h

-- On an ASCII text in a file whose extension names no language, or one other than JavaScript and its kin,
-- Fortran and VB.NET, `strip_noise` keeps the shape of the text: each character of the result stands for
-- the byte at its place, and is that byte or a blank for a byte that ends no line. Decoding is to leave ASCII
-- texts as they are.
pub strip_noise-SameShape :
    (std : Std) (extension : Option String) (content : Bytes)
    → KeepsAscii std.decode
    → IsAscii content
    → keeps_file (detect_language extension) ≡ true
    → SameShape content (strip_noise std true extension content)
unfolding strip_noise
strip_noise-SameShape std extension content k a h =
    language-SameShape std (detect_language extension) content k a h
