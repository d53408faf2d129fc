-- ===== src/Strip/Tests.antt =====
-- Runs of the strippers, and their theorems at concrete texts.
use xoxo.Strip.Dispatch.{Std, detect_language, c_sharp, strip_noise_for_language, strip_noise}
use xoxo.Strip.Languages.{strip_noise-SameShape}
use xoxo.Strip.Grammars.{strip_noise_for_language_idem}
use xoxo.Base.{
  Bool, [], ◌∷◌, if◌then◌else◌, true, false, some, ◌≡◌, refl, inl, arith, Bytes, codes, ◌<◌,
}
use xoxo.Strip.Shape.{IsAscii, IsAscii-is_ascii}
use xoxo.Strip.Scan.{one_of, SameShape, starts_with, here, turn}
use xoxo.Strip.Lexical.{Lexes, done, plain, literal, line, block, Literal}
use xoxo.Strip.CFamily.{strip_c_family_noise}
use xoxo.Strip.CFamily.Lexical.{c_family, strip_c_family_noise-Lexes}
use xoxo.Strip.Rust
use xoxo.Strip.Rust.{strip_rust_noise}
use xoxo.Strip.Rust.Depth.{Nested, block_depth_pos, run_block_comment, run_empty_comment}
use xoxo.Strip.JavaScript.{strip_javascript_noise, ascii_chars, jsx}
use xoxo.Strip.Go.{strip_go_noise}

abbrev c_source : Bytes
c_source = codes "a='/';/*x\ny*/b//z\n"

abbrev c_stripped : Bytes
c_stripped = codes "a='/';/* \n */b// \n"

strip_c_source : strip_c_family_noise c_source ≡ c_stripped
unfolding strip_c_family_noise
strip_c_source = refl

strip_rust_source :
    strip_rust_noise (codes "/* a /* b */ c */ let s = r#\"/*\"#; // d\n")
    ≡ codes "/*   /*   */   */ let s = r#\"/*\"#; //  \n"
unfolding strip_rust_noise
strip_rust_source = refl

strip_go_source :
    strip_go_noise (codes "//go:build x\nvar a = `//` // b\n")
    ≡ codes "//go:build x\nvar a = `//` //  \n"
unfolding strip_go_noise
strip_go_source = refl

js_source :
    strip_javascript_noise ascii_chars jsx (codes "a = /[/]*/.x; {/** b */}/** c */ // d\n")
    ≡ codes "a = /[/]*/.x; {//}/** . */ //  \n"
unfolding strip_javascript_noise
js_source = refl

c_source-Lexes : Lexes c_family c_source c_stripped
unfolding starts_with
c_source-Lexes =
    plain ((λ e. cc), (λ e. cc), refl, refl, refl)
      (plain ((λ e. cc), (λ e. cc), refl, refl, refl)
        (literal {q = b'\''} (codes "/") (inl refl) (Literal.char (λ e. cc) (λ e. cc) Literal.none)
          (plain ((λ e. cc), (λ e. cc), refl, refl, refl)
            (block (codes "x\ny") tt (refl, (refl, (refl, tt)))
              (plain ((λ e. cc), (λ e. cc), refl, refl, refl)
                (line (codes "z") tt ((λ e. cc), tt) done))))))

strip_c_family_noise-Lexes_example : strip_c_family_noise c_source ≡ c_stripped
strip_c_family_noise-Lexes_example = strip_c_family_noise-Lexes c_source-Lexes

block_depth_pos_example : 0 < (Rust.at Rust.State.block_comment 1).block_depth
unfolding Rust.step Rust.raw_string_prefix
block_depth_pos_example =
    block_depth_pos (codes "/* ") {s = Rust.at Rust.State.block_comment 1} {rest = codes " "}
      (turn here) refl

run_block_comment_example : strip_rust_noise (codes "/* /*x*/*/y") ≡ codes "/* /* */*/y"
unfolding strip_rust_noise starts_with
run_block_comment_example =
    run_block_comment {rest = codes "y"} 0
      (Nested.text {c = b' '} refl refl
        (Nested.nest (Nested.text {c = b'x'} refl refl Nested.nil) Nested.nil))
      refl refl

run_empty_comment_example : strip_rust_noise (codes "/**/let x = 1;") ≡ codes "/**           "
run_empty_comment_example = run_empty_comment (codes "let x = 1;") (omega arith)

-- What the strippers take from the standard library, on ASCII texts.
abbrev is_blank : Bytes → Bool
is_blank [] = true
is_blank (b ∷ bs) = if one_of (codes " \t\r\n") b then is_blank bs else false

abbrev ascii_std : Std
ascii_std = record {
  is_utf8 = λ bs. true;
  is_blank = λ bs. is_blank bs;
  decode = λ bs. bs;
  chars = ascii_chars;
}

c_source-IsAscii : IsAscii c_source
c_source-IsAscii = IsAscii-is_ascii c_source refl

strip_noise-SameShape_example :
    SameShape c_source (strip_noise ascii_std true (some "cpp") c_source)
strip_noise-SameShape_example =
    strip_noise-SameShape ascii_std (some "cpp") c_source (λ bs a. refl) c_source-IsAscii
      (unfold detect_language in refl)

strip_noise_for_language_idem_example :
    strip_noise_for_language ascii_std c_sharp (strip_noise_for_language ascii_std c_sharp c_source)
    ≡ strip_noise_for_language ascii_std c_sharp c_source
strip_noise_for_language_idem_example =
    strip_noise_for_language_idem ascii_std (λ bs. bs) c_sharp c_source (λ bs a. refl)
      c_source-IsAscii refl
