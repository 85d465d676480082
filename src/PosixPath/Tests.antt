-- ===== src/PosixPath/Tests.antt =====
-- Path functions on sample paths.
use multiplayer_fabric_manua.Common.{◌≡◌, refl}
use multiplayer_fabric_manua.Common.Text.{codes, text_eq, starts_with, split, join_with}
use multiplayer_fabric_manua.PosixPath.{normpath, dirname, relpath}

t1 : normpath (codes "rfd/2001-a/../2002-b//./index") ≡ codes "rfd/2002-b/index"
unfolding normpath split join_with text_eq starts_with
t1 = refl

t2 : normpath (codes "//a/../../..") ≡ codes "//"
unfolding normpath split join_with text_eq starts_with
t2 = refl

t3 : relpath (codes "/w") (codes "rfd/2002-b/index") (codes "rfd/2001-a") ≡ codes "../2002-b/index"
unfolding relpath split join_with text_eq starts_with
t3 = refl

t4 : dirname (codes "rfd/2002-b/index") ≡ codes "rfd/2002-b"
unfolding dirname
t4 = refl

t5 : normpath (codes "../a/../../b") ≡ codes "../../b"
unfolding normpath split join_with text_eq starts_with
t5 = refl
