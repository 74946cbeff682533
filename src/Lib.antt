-- ===== src/Lib.antt =====
-- A model of rtslib-fb, the Python library that configures the Linux kernel's SCSI target (LIO)
-- through configFS, with the theorems that make its core correct.
--
-- The program. configFS is a tree of directories, files and links in which the kernel shows its
-- target configuration. Every object of the library stands for a directory of the tree and is a
-- subclass of CFSNode (rtslib/node.py): a target, its portal groups (TPGs), their LUNs, portals and
-- node ACLs, the mapped LUNs of an ACL (rtslib/target.py), the fabric modules that the targets belong
-- to (rtslib/fabric.py), the storage objects with their backstores (rtslib/tcm.py) and the ALUA
-- groups of a storage object (rtslib/alua.py). RTSRoot (rtslib/root.py) clears, restores and saves a
-- whole configuration; rtslib/utils.py has what they share, such as the names of ports (WWNs).
--
-- The model. A method is a function of a world (Cfs/Monad) into a result and the world behind it;
-- what was changed before an exception stays changed. The world is the file system, the dictionary
-- `bs_cache`, the number of UUIDs drawn and the errors collected by a restore. What the kernel does
-- on mkdir, rmdir, write, symlink, unlink, on loading a module and on a shell command is a
-- parameter, the record Kernel, and so are the UUIDs and the host's names; udev is the parameter
-- Udev (Devices). A theorem that needs the kernel to do its part has that as a hypothesis: Stores
-- (Cfs/Laws), by which an attribute holds what was written, Apart (Cfs/Laws), by which a write to
-- one object leaves the others, RemovesDirectories (Cfs/Laws), by which a removed directory is
-- gone, and MakesDirectories (Node/Create). Cfs/Memory is a concrete kernel with which the examples
-- (the modules named Tests) meet them.
--
--   Prelude       what the modules share: texts as code points and the methods of str, decimal
--                 numbers, Python's int and float, exceptions and results, the search for a free number
--   Wwn           generate_wwn, colonize, _cleanse_wwn and normalize_wwn of rtslib/utils.py
--   Cfs           paths, the file system, fread and fwrite, and the methods' monad
--   Node          class CFSNode of rtslib/node.py
--   Dbroot        mount_configfs and modprobe of rtslib/utils.py, RTSRoot.__init__ and _set_dbroot
--   Auth          _get_auth_attr and _set_auth_attr of rtslib/utils.py
--   Devices       the functions of rtslib/utils.py that ask udev; Devices/Size has the sizes
--   Fabric        the fabric modules of rtslib/fabric.py; Fabric/Discovery has their setup and
--                 Fabric/Info the names of local ports and dump
--   Alua          class ALUATargetPortGroup of rtslib/alua.py
--   Tcm           rtslib/tcm.py: Cache and Backstore for bs_cache and class _Backstore, Lookup, Create
--                 and Delete for the storage objects, Info, Sizes and Dump for their properties
--   Target        rtslib/target.py: Objects, Children, Create, Factories, Delete, Getters, Alua,
--                 Sessions and Dump
--   Groups        the classes Group, NodeACLGroup and MappedLUNGroup of rtslib/target.py
--   Setup         the setup methods of rtslib/target.py, by which a configuration is restored;
--                 Setup/Items is what one item of a saved object sets
--   Root          rtslib/root.py: restore; Clear is clear_existing, SaveFile the steps of
--                 save_to_file and Lists the lists of RTSRoot, dump and the start of _get_saveconf
--
-- How they interact. bs_cache is shared by all constructors of class _Backstore;
-- Tcm/Backstore/Outcome has what each run of one returns and leaves there, and the properties of
-- the cache rest on it: Injective for one run, Refines for any sequence of runs and deletions,
-- Liveness for the room that a deletion makes. What a deletion leaves in configFS is told by
-- Cfs/Laws for a chain of steps (Ends), by Target/Deleted for the objects of rtslib/target.py and
-- by Tcm/Delete/Gone for a storage object; the way back of a constructor whose configuration fails
-- (there, and in Target/Create/Undone) rests on them. What changes nothing where it returns is told
-- by Cfs/Stays, for lookups by Tcm/Lookup/Unchanged. A group (Groups) is a loop over its members
-- and the first member; Tagged follows the loop over the ACLs of a TPG.
--
-- Conventions. A function has the name of the Python function without its leading underscore. A
-- dictionary of a saved configuration is a record with an option for each key; a generator is the
-- loop over it with the loop's body as an argument. An exception's message keeps its constant part
-- only. White space, upper and lower case are those of ASCII.
--
-- Bounds. The search for an index has the rounds of the source's range: 1048576 for backstores and
-- TPG tags, 65536 for LUNs. The search for a float's last bit (Prelude/Float) has 971 doublings,
-- which is enough for all numbers below 2 ^ 1024; larger ones are an OverflowError. Each other loop
-- goes over a list that is fixed before it, so no fuel is needed.
--
-- Not modelled: the reading of JSON; what stands in _get_saveconf and restore_from_file behind
-- `with Path(...).open as f`, which always raises; the lock file of class _Backstore, with the
-- making of /var/run and the OSErrors of both, so that Tcm/Backstore has of the allocation what
-- runs while the lock is held; sizes below 0; the `save` argument of two delete methods, the texts
-- of __repr__ and __str__, warnings, scripts/targetctl and scripts/convert-to-json.
pub mod Alua
pub mod Auth
pub mod Cfs
pub mod Dbroot
pub mod Devices
pub mod Fabric
pub mod Groups
pub mod Node
pub mod Prelude
pub mod Root
pub mod Setup
pub mod Target
pub mod Tcm
pub mod Wwn
