-- ===== src/Driver/Linking.antt =====
-- src/sw/driver/options.h and .cpp: NativeLinkerOptionsData, and the system's part of NativeLinkerOptions. A library
-- is the number of its path and its whole_archive, which operator== compares.
use software.Base.{ℕ, List, ◌++◌}
use software.Driver.UniqueVector.{
  UniqueVector, empty_vector, insert_all, erase_element, push_back_element,
}

pub record LinkerData : Type 0 where
  pub frameworks : UniqueVector
  pub link_libraries : UniqueVector
  pub link_options : List ℕ
  pub pre_link_directories : UniqueVector
  pub link_directories : UniqueVector
  pub post_link_directories : UniqueVector

-- add(const LinkDirectory &) and remove(const LinkDirectory &)
unfoldable pub add_link_directory : ℕ → LinkerData → LinkerData
unfolding push_back_element
add_link_directory d o = record o { link_directories = push_back_element d o.link_directories }

unfoldable pub remove_link_directory : ℕ → LinkerData → LinkerData
unfolding erase_element
remove_link_directory d o = record o { link_directories = erase_element d o.link_directories }

-- add(const LinkLibrary &) and remove(const LinkLibrary &)
unfoldable pub add_link_library : ℕ → LinkerData → LinkerData
unfolding push_back_element
add_link_library l o = record o { link_libraries = push_back_element l o.link_libraries }

unfoldable pub remove_link_library : ℕ → LinkerData → LinkerData
unfolding erase_element
remove_link_library l o = record o { link_libraries = erase_element l o.link_libraries }

-- NativeLinkerOptionsData::gatherLinkDirectories
unfoldable pub gather_link_directories : LinkerData → UniqueVector
unfolding insert_all
gather_link_directories o =
    insert_all o.post_link_directories.v
      (insert_all o.link_directories.v (insert_all o.pre_link_directories.v empty_vector))

-- NativeLinkerOptionsData::merge
unfoldable pub merge_linker_data : LinkerData → LinkerData → LinkerData
unfolding insert_all
merge_linker_data o to = record {
  frameworks = insert_all o.frameworks.v to.frameworks;
  link_libraries = insert_all o.link_libraries.v to.link_libraries;
  link_options = to.link_options ++ o.link_options;
  pre_link_directories = insert_all o.pre_link_directories.v to.pre_link_directories;
  link_directories = insert_all o.link_directories.v to.link_directories;
  post_link_directories = insert_all o.post_link_directories.v to.post_link_directories;
}

pub record LinkerParts : Type 0 where
  pub own : LinkerData
  pub system : LinkerData

-- add(const SystemLinkLibrary &) and remove(const SystemLinkLibrary &)
unfoldable pub add_system_library : ℕ → LinkerParts → LinkerParts
unfolding add_link_library
add_system_library l o = record o { system = add_link_library l o.system }

unfoldable pub remove_system_library : ℕ → LinkerParts → LinkerParts
unfolding remove_link_library
remove_system_library l o = record o { system = remove_link_library l o.system }

-- NativeLinkerOptions::merge
unfoldable pub merge_linker_options : LinkerParts → LinkerParts → LinkerParts
unfolding merge_linker_data
merge_linker_options o to = record {
  own = merge_linker_data o.own to.own;
  system = merge_linker_data o.system to.system;
}

-- NativeLinkerOptions::gatherLinkDirectories: the target's own directories, then the system's, all of both.
unfoldable pub gather_all_link_directories : LinkerParts → List ℕ
unfolding gather_link_directories
gather_all_link_directories o =
    (gather_link_directories o.own).v ++ (gather_link_directories o.system).v
