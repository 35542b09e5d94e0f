-- ===== src/Paths/Tests.antt =====
-- Concrete paths.
use image_proxy.Base.{◌≡◌, refl, take, codes}
use image_proxy.Paths.{
  name_from, file_name, dir_name, file_extension, extension_from, base_from, base_name,
  base_file_from, base_file_name,
}
use image_proxy.Paths.Names.{base_name-file_name, base_file_name-stem}
use image_proxy.Paths.Parts.{dir_name-file_name, file_extension-last}
use image_proxy.Split.{scan}

dir_and_file_run :
    (dir_name 47 (codes "/usr/bin/sort") ≡ codes "/usr/bin")
    × (file_name 47 (codes "/usr/bin/sort") ≡ codes "sort")
unfolding scan
dir_and_file_run = dir_name-file_name 47 (codes "/usr/bi") (codes "sort") 110 refl refl

file_extension_run : file_extension (codes "stdio.h .h") ≡ codes "h"
unfolding scan
file_extension_run = file_extension-last (codes "stdio.h ") (codes "h") refl

-- With a point in the directory alone the rest of the path passes for an extension.
extension_of_directory : file_extension (codes "/a.d/b") ≡ codes "d/b"
unfolding file_extension extension_from
extension_of_directory = refl

-- The three examples of the comments on `BaseName` and `BaseFileName`.
base_name_run : base_name 47 (codes "/include/stdio.h .h") ≡ codes "stdio"
unfolding base_name base_from
base_name_run = refl

base_file_name_run : base_file_name 47 (codes "/include/source.adl.hpp") ≡ codes "source.adl"
unfolding base_file_name base_file_from
base_file_name_run = refl

base_file_name_whole : base_file_name 47 (codes "/usr.d/sort") ≡ codes "sort"
unfolding base_file_name base_file_from
base_file_name_whole = refl

base_name-file_name_run :
    base_name 47 (codes "/a.d/b.c.d")
    ≡ take (scan 46 (file_name 47 (codes "/a.d/b.c.d"))) (file_name 47 (codes "/a.d/b.c.d"))
base_name-file_name_run = base_name-file_name 47 (codes "/a.d/b.c.d") refl

base_file_name_split : base_file_name 47 (codes "/a.d/b.c.d") ≡ codes "b.c"
unfolding file_name name_from scan
base_file_name_split =
    base_file_name-stem 47 (codes "/a.d/b.c.d") (codes "b.c") (codes "d") refl refl refl
