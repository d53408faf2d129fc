-- ===== src/Strip/Grammars.antt =====
-- The languages whose comments and literals are covered by a grammar, and those that stripping settles.
use xoxo.Base.{Bool, true, false, ◌≡◌, ap, ◌∙◌, Bytes}
use xoxo.Strip.Scan.{SameShape}
use xoxo.Strip.Shape.{IsAscii, IsAscii-SameShape, KeepsAscii}
use xoxo.Strip.CFamily.{strip_c_family_noise-SameShape}
use xoxo.Strip.CSharp.{strip_c_sharp_noise-SameShape}
use xoxo.Strip.Haskell.{strip_haskell_noise-SameShape}
use xoxo.Strip.Php.{strip_php_noise-SameShape}
use xoxo.Strip.Erlang.{strip_erlang_noise-SameShape}
use xoxo.Strip.Lexical.{Lexes}
use xoxo.Strip.Dispatch.{SourceLanguage, Std, strip_noise_for_language}
use xoxo.Strip.CFamily.Lexical.{c_family as c_family_grammar}
use xoxo.Strip.CSharp.Lexical.{c_sharp as c_sharp_grammar}
use xoxo.Strip.Dart.Lexical.{dart as dart_grammar}
use xoxo.Strip.Haskell.Lexical.{haskell as haskell_grammar}
use xoxo.Strip.Julia.Lexical.{julia as julia_grammar}
use xoxo.Strip.Kotlin.Lexical.{kotlin as kotlin_grammar}
use xoxo.Strip.Lua.Lexical.{lua as lua_grammar}
use xoxo.Strip.Php.Lexical.{php as php_grammar}
use xoxo.Strip.Scala.Lexical.{scala as scala_grammar}
use xoxo.Strip.Swift.Lexical.{swift as swift_grammar}
use xoxo.Strip.CFamily.Again.{strip_c_family_noise_idem}
use xoxo.Strip.CSharp.Again.{strip_c_sharp_noise_idem}
use xoxo.Strip.Haskell.Again.{strip_haskell_noise_idem}
use xoxo.Strip.Php.Again.{strip_php_noise_idem}
use xoxo.Strip.Erlang.Again.{strip_erlang_noise_idem}

-- The text and what is left of it, by the lexical grammar of the stripper's markers: code, comments that do
-- not nest, and quoted literals with escapes; raw, long and triple-quoted literals have no rule in it.
abbrev pub LexesIn : SourceLanguage → Bytes → Bytes → Type 0
LexesIn SourceLanguage.c_family content out = Lexes c_family_grammar content out
LexesIn SourceLanguage.java content out = Lexes c_family_grammar content out
LexesIn SourceLanguage.solidity content out = Lexes c_family_grammar content out
LexesIn SourceLanguage.c_sharp content out = Lexes c_sharp_grammar content out
LexesIn SourceLanguage.dart content out = Lexes dart_grammar content out
LexesIn SourceLanguage.haskell content out = Lexes haskell_grammar content out
LexesIn SourceLanguage.julia content out = Lexes julia_grammar content out
LexesIn SourceLanguage.kotlin content out = Lexes kotlin_grammar content out
LexesIn SourceLanguage.lua content out = Lexes lua_grammar content out
LexesIn SourceLanguage.php content out = Lexes php_grammar content out
LexesIn SourceLanguage.scala content out = Lexes scala_grammar content out
LexesIn SourceLanguage.swift content out = Lexes swift_grammar content out
LexesIn _ content out = ⊥

abbrev pub settles : SourceLanguage → Bool
settles SourceLanguage.c_family = true
settles SourceLanguage.java = true
settles SourceLanguage.solidity = true
settles SourceLanguage.c_sharp = true
settles SourceLanguage.haskell = true
settles SourceLanguage.php = true
settles SourceLanguage.erlang = true
settles _ = false

settles-SameShape :
    (std : Std) (language : SourceLanguage) (content : Bytes)
    → settles language ≡ true
    → SameShape content (strip_noise_for_language std language content)
unfolding strip_noise_for_language
settles-SameShape std SourceLanguage.c_family content h = strip_c_family_noise-SameShape content
settles-SameShape std SourceLanguage.java content h = strip_c_family_noise-SameShape content
settles-SameShape std SourceLanguage.solidity content h = strip_c_family_noise-SameShape content
settles-SameShape std SourceLanguage.c_sharp content h = strip_c_sharp_noise-SameShape content
settles-SameShape std SourceLanguage.haskell content h = strip_haskell_noise-SameShape content
settles-SameShape std SourceLanguage.php content h = strip_php_noise-SameShape content
settles-SameShape std SourceLanguage.erlang content h = strip_erlang_noise-SameShape content
settles-SameShape std _ content h = cc

strip_again :
    (std : Std) (language : SourceLanguage) (content : Bytes)
    → settles language ≡ true
    → strip_noise_for_language std language (strip_noise_for_language std language content)
      ≡ strip_noise_for_language std language content
unfolding strip_noise_for_language
strip_again std SourceLanguage.c_family content h = strip_c_family_noise_idem content
strip_again std SourceLanguage.java content h = strip_c_family_noise_idem content
strip_again std SourceLanguage.solidity content h = strip_c_family_noise_idem content
strip_again std SourceLanguage.c_sharp content h = strip_c_sharp_noise_idem content
strip_again std SourceLanguage.haskell content h = strip_haskell_noise_idem content
strip_again std SourceLanguage.php content h = strip_php_noise_idem content
strip_again std SourceLanguage.erlang content h = strip_erlang_noise_idem content
strip_again std _ content h = cc

-- Stripping an ASCII text in C, C++, Java, Solidity, C#, Haskell, PHP or Erlang a second time changes
-- nothing: the bytes that encode the characters of the stripped text are stripped to these characters. Encoding is
-- to leave ASCII texts as they are.
pub strip_noise_for_language_idem :
    (std : Std) (encode : Bytes → Bytes) (language : SourceLanguage) (content : Bytes)
    → KeepsAscii encode
    → IsAscii content
    → settles language ≡ true
    → strip_noise_for_language std language (encode (strip_noise_for_language std language content))
      ≡ strip_noise_for_language std language content
strip_noise_for_language_idem std encode language content k a h =
    let stripped = strip_noise_for_language std language content in
    let shape = settles-SameShape std language content h in
    ap (strip_noise_for_language std language)
      (k stripped (IsAscii-SameShape content stripped shape a))
    ∙ strip_again std language content h
