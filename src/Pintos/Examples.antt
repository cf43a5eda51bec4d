-- ===== src/Pintos/Examples.antt =====
-- The kernel at concrete inputs.
mod ThreadTests
mod SynchTests
mod IntqTests
mod BitmapTests
mod InodeTests
mod KlistTests
mod CstringTests
mod DirectoryTests
mod DivisionTests
