-- ===== src/Lib.antt =====
-- epinio: a verification library for the server's own logic, in the Go packages below `internal/`.
--
-- The server answers the requests of the API. A request passes two middlewares
-- (internal/api/v1/middleware/auth.go) before its handler runs: one asks whether the roles of the
-- user permit the route (internal/auth: actions, roles, users), the other whether the namespace of
-- the request is one of the user's. Users are secrets of the cluster and are read, written and
-- cleaned up by the auth service. The names of the resources that the handlers create are made by
-- internal/names. What a user sets for an application, its environment, its bound configurations and
-- services and its number of instances, is kept in four secrets of the application
-- (internal/application). The routes of an application are texts with a domain, for which a certificate
-- is chosen (internal/routes, internal/domain).
-- An application begins with a manifest, which the command line reads and updates by its options
-- (internal/manifest); its sources are packed without the files that are ignored (helpers/ignore.go,
-- helpers/tar.go). Its custom values are checked against the declarations of a chart, and become values
-- of a deployment (internal/helm). Lists put applications together from their resources and secrets, a
-- page at a time, and handlers of internal/api/v1/application answer with those that a user may see.
-- What staging leaves in the cluster and in the S3 storage is removed by Unstage, which the deletion
-- of an application calls.
--
-- Files:
--   Base, Base/*        lists, options, results and Booleans, with the lemmas on them
--   Text, Text/*        Go strings as lists of bytes, package strings, sorting, maps with text keys
--   Auth/Action         internal/auth/action.go: Action, Endpoint, InitActions, Merge, IsAllowed
--   Auth/Action/Loading   what InitActions returns
--   Auth/Role           internal/auth/role.go: Role, FindByID, NewRole, ParseRoleID, IsAllowed
--   Auth/Role/Ids, Auth/Role/Access   the text of an id; which requests a role permits
--   Auth/User           internal/auth/user.go: User, AddNamespace to RemoveGitconfig, IsAllowed,
--                       IsUpdateUserNeeded and its two parts
--   Auth/User/Access, Auth/User/Members, Auth/User/Update   what those ensure
--   Auth/Secret         internal/auth/user.go: newUserFromSecret, updateUserSecretData,
--                       newSecretFromUser; Auth/Secret/Lines, Auth/Secret/Known and
--                       Auth/Secret/RoundTrip have the round trip
--   Auth/Service        internal/auth/auth.go: GetUsers, GetUserByUsername, SaveUser, UpdateUser and
--                       the two cleanups; Auth/Service/Lookup and Auth/Service/Writes what they do
--   Auth/Filter         internal/auth/auth.go: FilterResources and the gitconfig permissions
--   Names, Names/*      internal/names/names.go
--   Middleware, Middleware/Access   internal/api/v1/middleware/auth.go
--   App/Store           internal/application/secret.go: loadOrCreateSecret, createSecret, and the cycle
--                       of envUpdate, configUpdate, svcUpdate and scaleUpdate; App/Store/Written has
--                       what is read after an update
--   App/Environment, App/Environment/Stored   internal/application/env.go
--   App/Bindings        internal/application/configurations.go and services.go; App/Bindings/Keys,
--                       App/Bindings/Inverted and App/Bindings/Stored what they ensure
--   App/Bound, App/Bound/Collected   BoundApps and ServicesBoundApps of these two files
--   App/Scaling, App/Scaling/RoundTrip   internal/application/scale.go
--   Routing, Routing/RoundTrip   internal/routes/routes.go
--   Glob                Match of package path/filepath
--   Domain, Domain/Best   internal/domain/match.go: MatchDo
--   Paths               Clean, Rel and Base of package path/filepath
--   Ignore, Ignore/Pattern   helpers/ignore.go: ShouldIgnore; parsePattern, LoadIgnoreMatcher
--   Ignore/Matching, Ignore/DoubleStar   matchesPattern, matchAtStart, matchPart; the patterns with
--                       several parts and with two stars
--   Ignore/Verdict, Ignore/DoubleStar/Windows, Ignore/DoubleStar/Covers, Ignore/Parse, Ignore/Shown
--                       which pattern decides, what those match, what is parsed
--   Archive, Archive/Packed   helpers/tar.go: the files that Tar packs
--   Integers, Integers/RoundTrip   the integers as package strconv prints and reads them
--   Settings            internal/helm/helm.go: ValidateField, validateRange;
--                       internal/application/application.go: ValidateCV
--   Settings/Nested, Settings/Fields, Settings/Checked
--                       keys below a map; which values pass; what ValidateCV accepts
--   Deploy              internal/helm/helm.go: getValuesYAML; UniqueStrings, EnvVariableMap.List
--   Deploy/Typed, Deploy/Agreement   the values that are deployed; ValidateCV and getValuesYAML compared
--   Paging, Paging/Slices, Paging/Clamped
--                       internal/api/v1/response/response.go: GetPaginationParams, PaginateSlice,
--                       BuildPaginatedResponse; the slicing of ListPaginated
--   Listing, Listing/ByNamespace, Listing/Handlers
--                       internal/application/application.go: List, ListPaginated and
--                       ListPaginatedByNamespace; internal/api/v1/application: Index, FullIndex,
--                       GroupedIndex
--   Listing/ByNamespace/Pages, Listing/Visible, Listing/Truncated
--                       the page of a namespace, the namespaces a user is shown, a search without a page
--   Paths/Absolute      IsAbs, Join, Dir and Abs of package path/filepath
--   Manifest, Manifest/Options, Manifest/Sources, Manifest/Read
--                       pkg/api/core/v1/models/models.go; internal/manifest/manifest.go: the updates by
--                       options, UpdateSources, Get
--   Manifest/Push       internal/cli/cmd/apps.go: the manifest of a push
--   Manifest/Assigned, Manifest/Shown, Manifest/Unchanged, Manifest/OneOrigin, Manifest/Pushed
--                       the variables of --env, the origin that is settled on
--   Origin, Origin/Stored   internal/application/origin.go: Origin, and what it reads back
--   Staging             internal/application/application.go: stagingStatus, IsCurrentlyStaging, Unstage,
--                       CleanupS3Blobs; internal/s3manager/s3manager.go: IsQuotaExceededError
--   Staging/Kept, Staging/Deleted, Staging/Status
--                       what Unstage keeps, which blobs are gone, when an application is staging
--   Deletion, Deletion/Blobs   internal/application/application.go: Delete, and the blobs that it deletes
--   Auxiliary, Auxiliary/LastSecret   internal/application/application.go: makeAuxiliaryMap,
--                       updateAppDataMapWithStagingJobStatus; the secrets that aggregate unpacks
--   Logging, Logging/Names   internal/application/application.go: buildContainerIncludePattern,
--                       buildContainerExcludePattern; the names in the patterns
--   Tests, App/Tests, App/Bound/Tests, Auth/Tests, Auth/Service/Tests, Auxiliary/Tests, Deletion/Tests,
--   Deploy/Tests, Ignore/Tests, Listing/Tests, Logging/Tests, Manifest/Tests, Staging/Tests
--                       runs on concrete data
--
-- How code becomes definitions: a struct is a record, a slice a list, a map an association list with
-- its reads of missing keys written out, a Go string a list of bytes. A method that changes its
-- receiver returns the changed record. An error is a value of `Result`; a panic is `none`. The
-- state of the cluster is a type `W` that the calls of the kubernetes API, a record `SecretApi`, pass
-- on; what the code relies on of them is `IsFaithful`. The same is done for the secrets of an
-- application with `Kube` and `IsStore`. The SHA-1 checksum is a function `sha1_hex`.
-- The calls that a list is made with are a record `Source`, those of Unstage `Services` and those of a
-- deletion `Removal`; the options of a command are `Flags`, and its files `Files`.
-- All loops are over slices and are structural recursions, with three exceptions on fuel: the digits of a
-- number, for which the number itself is enough, as each digit makes it smaller; the parts of a
-- file pattern, for which its length is, as each part takes a byte; and the shorter and shorter keys of a
-- map of custom values, for which the number of the parts of a key is.
--
-- Iterating a Go map gives its keys in no fixed order. Where the code sorts the keys afterwards, the
-- model iterates in the order of insertion, and the sorting makes the result the same. Where it does
-- not, as at patterns of one length in MatchDo, the model has one of the orders, and the theorems hold
-- for each, since they are about every list of entries.
--
-- Strings are bytes, and two operations on them are exact for ASCII alone: TrimSpace trims the white space
-- of ASCII and not, as Go does, that beyond it (U+0085, U+00A0 and others), and the comparison of a search
-- lowers the letters of ASCII only. DNSLabelSafe lowers all letters whose lower case is ASCII; it strips the
-- rest.
--
-- Not modelled: logging, tracing, passwords (bcrypt), the API clients, the helm client, and of the command
-- line all but the manifest of a push.
pub mod Base
pub mod Text
pub mod Auth
pub mod Names
pub mod Integers
pub mod Middleware
pub mod App
pub mod Routing
pub mod Glob
pub mod Manifest
pub mod Origin
pub mod Staging
pub mod Deletion
pub mod Auxiliary
pub mod Logging
pub mod Paths
pub mod Ignore
pub mod Archive
pub mod Settings
pub mod Domain
pub mod Deploy
pub mod Paging
pub mod Listing
pub mod Tests
