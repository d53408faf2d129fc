-- ===== src/Strip.antt =====
-- The comment strippers of crates/agents/nerd/src/coding/noise_stripper, a module for each file.
pub mod Scan
pub mod Shape
pub mod Lines
pub mod Lexical
pub mod Again
pub mod CFamily
pub mod CSharp
pub mod Dart
pub mod Elixir
pub mod Erlang
pub mod GraphQl
pub mod Haskell
pub mod Julia
pub mod Kotlin
pub mod Lua
pub mod Php
pub mod Scala
pub mod Swift
pub mod Toml
pub mod Ruby
pub mod Shell
pub mod Python
pub mod Rust
pub mod Go
pub mod Groovy
mod Tests
pub mod Yaml
pub mod VbNet
pub mod Fortran
pub mod JavaScript
pub mod Dispatch
pub mod Languages
pub mod Grammars
