-- ===== src/Lib.antt =====
-- Software Network (SW): a build system and package manager in C++.
--
-- Paths are from the repository's root. Modelled are parts of the build engine, src/sw/builder, of the
-- package names and settings, src/sw/support, of the targets, src/sw/core, of the package database,
-- src/sw/manager, and of the rules and options of targets, src/sw/driver.
--
-- Builder.Node: CommandNode (src/sw/builder/command_node.h) and what the plan reads of
-- builder::Command. An object is reached by its address, a number, through a heap.
-- Builder.Prepare: ExecutionPlan::prepare (src/sw/builder/execution_plan.cpp).
-- Builder.Plan: ExecutionPlan::init, as `sweep` (the for loop of a round), `rounds` (the while loop)
-- and `finish`. The fuel of `rounds` is one more than the number of commands, which is enough since
-- every round but the last takes a command (`init_total`). std::sort is a stable insertion sort.
-- Builder.Exec: ExecutionPlan::execute, as atomic pieces of code of the jobs and of the calling
-- thread, which a step relation interleaves. The executor of the primitives library runs a job that
-- was pushed at any time; `Future::wait` returns once the job has ended.
-- Builder.File: FileData::refresh (src/sw/builder/file.cpp), with the threads that call it
-- interleaved.
-- Builder.Files: File and FileStorage (src/sw/builder/file.cpp and file_storage.cpp) in one thread's
-- view; what other threads do to a file during the loop of isChanged is a parameter, and so is
-- normalize_path.
-- Builder.Storage: CommandRecord and the command log (src/sw/builder/command_storage.cpp). The fuel of
-- `load` is more than the number of records. BinaryStream is read as bytes; what it does at the end of
-- the bytes is not modelled.
-- Builder.Command: builder::Command (src/sw/builder/command.cpp): Hash (getHash), Outdated
-- (isOutdated), Execute (prepare, execute), Response (the file of arguments). A state and exceptions
-- are passed on by a monad. Running the program, hash_combine and the dependencies in the program's
-- output are the parameter Outside.
-- Support.Settings: PackageSetting and PackageSettings (src/sw/support/settings.cpp): Merge and Assign
-- (mergeMissing, mergeAndAssign), Texts and Json (toJson, mergeFromJson), Hash (getHash1).
-- hash_combine and the hashes of plain values are parameters; plain values are numbers, and Contents
-- says what they stand for.
-- Core.Targets: TargetContainer and TargetMap (src/sw/core/target.cpp); Core.Inputs: InputDatabase
-- (src/sw/core/input_database.cpp), with SQLite's comparison of paths without case as a parameter.
-- Builder.Deps: process_deps_gnu (src/sw/builder/command.cpp), without the drives of Windows. The
-- files are a list, in the order in which they are put into the set.
-- Support.Path: PackagePath (src/sw/support/package_path.h). A string is the list of its character
-- codes. Boost's iequals is a parameter.
-- Support.Version: PackageVersion and PackageVersionRange (src/sw/support/version.h). Version and
-- VersionRange of the primitives library are the parameter VersionLib.
-- Support.Name: PackageName and UnresolvedPackageName (src/sw/support/package_name.h).
-- Manager.Database: PackagesDatabase (src/sw/manager/database.cpp) over its tables as lists of rows.
-- The texts of versions are numbers in the tables, with the coding as parameters. Valid: what the
-- tables keep; Install, Hashes, Added, Installed and Again: installPackage; Resolve and Answers:
-- resolve.
-- Driver.Rules: RuleFile and RuleFiles (src/sw/driver/rule_file.cpp). Needs: the commands that a file
-- needs; Commands: getCommands. The fuel is the depth of the recursion, for which a rank on the paths
-- is enough.
-- Driver.System: RuleSystem (src/sw/driver/rule_storage.cpp), and NativeRule and RcRule
-- (src/sw/driver/rule.cpp). Inputs: addInputs; Rounds: the loop of runRules, whose fuel is the number
-- of files that the rules can make; Resources: the loop with RcRule. Driver.UniqueVector,
-- Driver.Options and Driver.Linking: UniqueVector and the options of native compilers and linkers
-- (src/sw/driver/options.cpp); Driver.Dependencies: the dependencies of NativeLinkerOptions, objects
-- in a heap.
-- Support.PackageMap: PackageVersionMapBase and its iterator (src/sw/support/package_version_map.h).
-- Support.Resolver: ResolveRequest and Resolver (src/sw/support/resolver.h). A storage is a function
-- on requests.
--
-- Not modelled: the other parts of builder (chains of commands, the output of msvc, the operating
-- system) and of support (storages), most of core, which is SW_UNIMPLEMENTED or glue to drivers, the
-- storages and remotes of the manager, and the driver but for its rules and options. The client, the
-- network services and the vendored code are input, output and glue.
mod Base
pub mod Builder
pub mod Core
pub mod Driver
pub mod Manager
pub mod Support
mod Tests
